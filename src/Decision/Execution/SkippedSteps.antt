-- ===== src/Decision/Execution/SkippedSteps.antt =====
-- Tests of a replan of a plan with a skipped step.
use moduagent.Base.{◌≡◌, refl, false, some, [], ◌∷◌, raise, lookup, insert}
use moduagent.Decision.Planning.Steps.{
  PlanStep, pending, completed, skipped, value_error, string_list,
}
use moduagent.Decision.Planning.Steps as StepCode
use moduagent.Decision.Planning.Results as StepKinds
use moduagent.Decision.Planning.Results.{StepResult, validate, check_status, check_evidence}
use moduagent.Decision.Planning.Graph.{visit, for_each}
use moduagent.Decision.Planning.Plan.{
  Plan, current, is_complete, move_to_next_open_step, raised_by, validate_dependency_graph,
}
use moduagent.Decision.Planning.Plan as PlanCode
use moduagent.Decision.Planning.Moves.{
  start_step, start_open, start_current, committed, commit_current, commit, commit_result,
}
use moduagent.Decision.Execution.State.{ExecutionState, step_validate, current_step, current_id}
use moduagent.Decision.Execution.Operations.{
  Outcome, prepare_current_step, set_pending_result, set_result, commit_pending, commit_of,
  after_commit, mark_tool_round_complete, mark_in,
}
use moduagent.Decision.Execution.Calls.{records_from, tool_call_records, activate}
use moduagent.Decision.Execution.Replan.{
  revised, failed_revision, reread, merge, apply_replan, adopt_if_made, adopt, after_apply, replan,
}
use moduagent.Decision.Execution.Policy.{
  Response, judged, after_replan, to_replan, decide, by_calls, decide_calls, decide_records,
  decide_repair, repair_error_of, decide_text, decide_answer, decide_result, take_result, after_set,
  validate_pending, validate_in, rule, by_kind,
}
use moduagent.Decision.Execution.History.{prepares, decides, new_state, perform, run}
use moduagent.Decision.Execution.Samples.{
  strip, digest, fingerprint, ref_of, step, result, validator,
}

-- The first step is skipped, and the second depends on it.
abbrev three_steps : Plan
three_steps = record {
  steps =
      record (step "collect" []) { status = skipped }
      ∷ step "report" ("collect" ∷ [])
      ∷ step "send" ("report" ∷ [])
      ∷ [];
  current_index = 1;
  version = 1;
}

abbrev answer : StepResult → Response
answer r = record { finish_reason = "stop"; tool_calls = []; decoded = some r }

abbrev reported : ExecutionState
reported = run strip digest fingerprint ref_of 3 1 (some to_replan) (new_state three_steps) (
    prepares false
    ∷ decides validator "" (answer (result "report")) failed_revision
    ∷ prepares false
    ∷ [])

-- The verdict on the third step asks for a new plan, and the revision is the plan as it stands.
abbrev outcome : Outcome
outcome =
    decide strip digest fingerprint ref_of 3 1 (some to_replan)
      (λ s r. judged (record { kind = StepKinds.replans; unmet_criteria = [] }) "blocked") ""
      reported (answer (result "send")) (revised reported.plan)

-- The skipped step moves behind the committed one that depends on it, so the merged plan is refused;
-- the pending result stays.
merged_plan_raises :
    (outcome.1 ≡ raise value_error)
    × (outcome.0.phase ≡ step_validate)
    × (outcome.0.pending_step_result ≡ some (result "send"))
unfolding run perform prepare_current_step start_current start_open start_step
    move_to_next_open_step current current_id decide by_calls decide_calls decide_records
    decide_repair repair_error_of decide_text decide_answer decide_result take_result after_set
    validate_pending validate_in rule by_kind validate check_status check_evidence tool_call_records
    records_from activate mark_tool_round_complete mark_in set_pending_result set_result
    current_step commit_pending commit_of commit_result commit commit_current committed after_commit
    new_state lookup insert is_complete replan apply_replan after_apply adopt_if_made adopt merge
    reread StepCode.post_init string_list PlanCode.post_init validate_dependency_graph visit
    for_each raised_by after_replan
merged_plan_raises = (refl, refl, refl)
