-- ===== src/Decision/Execution/Samples.antt =====
-- Tests of the state of a run, and its theorems at a plan of two steps.
use moduagent.Base.{
  ◌+◌, ◌≤◌, ◌≡◌, refl, subst, String, true, false, Option, none, some, List, [], ◌∷◌, ◌++◌, ok,
  lookup, insert, strip_prefix, is_lower_hex,
}
use moduagent.Decision.Planning.Steps.{
  PlanStep, PlanStepStatus, pending, in_progress, completed, failed, Error, value_error,
  runtime_error, string_list,
}
use moduagent.Decision.Planning.Steps as StepCode
use moduagent.Decision.Planning.Graph.{visit, for_each}
use moduagent.Decision.Planning.Plan.{
  Plan, current, is_complete, move_to_next_open_step, raised_by, validate_dependency_graph,
}
use moduagent.Decision.Planning.Plan as PlanCode
use moduagent.Decision.Planning.Moves.{
  start_step, start_open, start_current, committed, commit_current, commit, commit_result,
}
use moduagent.Decision.Planning.Runs.{one_if}
use moduagent.Decision.Planning.Results.{StepResult, validate, check_status, check_evidence}
use moduagent.Decision.Planning.Results as StepKinds
use moduagent.Decision.Planning.Results.{completed as completed_result}
use moduagent.Decision.Execution.State.{ExecutionState, done, current_step, current_id}
use moduagent.Decision.Execution.Checks.{is_tool_argument_fingerprint, post_init}
use moduagent.Decision.Execution.Operations.{
  prepare_current_step, set_pending_result, set_result, commit_pending, commit_of, after_commit,
  begin_finalization, record_final_response, mark_tool_round_complete, mark_in,
}
use moduagent.Decision.Execution.Calls.{
  ToolCall, records_from, tool_call_records, activate, retry_invalid_result, retry_of,
}
use moduagent.Decision.Execution.Replan.{
  revised, failed_revision, reread, merge, apply_replan, adopt_if_made, adopt, after_apply, replan,
}
use moduagent.Decision.Execution.Policy.{
  Verdict, judged, after_replan, to_replan, decide, by_calls, decide_calls, decide_records,
  decide_repair, repair_error_of, decide_text, decide_answer, decide_result, take_result, after_set,
  validate_pending, validate_in, rule, by_kind, fallback_or,
}
use moduagent.Decision.Execution.History.{
  Operation, prepares, decides, finalizes, responds, new_state, perform, run, emission_count,
}
use moduagent.Decision.Execution.Restore.{run-post_init}
use moduagent.Decision.Execution.Outputs.{run-emission_count}
use moduagent.Decision.Execution.Permanence.{run-keeps_committed}
use moduagent.Decision.Execution.Revisions.{revision_count, run-revision_count}

abbrev pub strip : String → String
strip s = s

abbrev pub digest : String → String
digest s = s

abbrev zeros : String
zeros = "sha256:0000000000000000000000000000000000000000000000000000000000000000"

abbrev pub fingerprint : String → Option String
fingerprint arguments = some zeros

abbrev pub ref_of : StepResult → String
ref_of r = r.step_id

zeros-canonical : is_tool_argument_fingerprint zeros ≡ true
unfolding is_tool_argument_fingerprint strip_prefix is_lower_hex
zeros-canonical = refl

canonical :
    (a f : String)
    → fingerprint a ≡ some f
    → (is_tool_argument_fingerprint f ≡ true) × (strip f ≡ f)
canonical a f h =
    let same : zeros ≡ f = cc in
    (subst (λ g. is_tool_argument_fingerprint g ≡ true) same zeros-canonical, refl)

abbrev pub step : String → List String → PlanStep
step objective dependencies = record {
  description = objective;
  status = pending;
  expected_output = none;
  metadata = [];
  step_id = objective;
  objective = some objective;
  completion_criteria = "evidence" ∷ [];
  dependencies = dependencies;
  allowed_tools = [];
  attempt_count = 0;
  result_ref = none;
}

abbrev two_steps : Plan
two_steps = record {
  steps = step "collect" [] ∷ step "report" ("collect" ∷ []) ∷ [];
  current_index = 0;
  version = 1;
}

accepted : PlanCode.post_init two_steps ≡ ok two_steps
unfolding PlanCode.post_init validate_dependency_graph visit for_each lookup raised_by
    move_to_next_open_step
accepted = refl

abbrev pub result : String → StepResult
result step_id = record {
  step_id = step_id;
  status = completed_result;
  facts = [];
  artifacts = [];
  uncertainties = [];
  missing_inputs = [];
  completion_evidence = "seen" ∷ [];
}

-- The baseline validator, without reasons.
abbrev pub validator : PlanStep → StepResult → Verdict
validator s r = judged (validate strip s r) ""

abbrev calls : List ToolCall → Operation
calls tool_calls =
    decides validator ""
      (record { finish_reason = "tool_calls"; tool_calls = tool_calls; decoded = none })
      failed_revision

abbrev answers : StepResult → Operation
answers r =
    decides validator "" (record { finish_reason = "stop"; tool_calls = []; decoded = some r })
      failed_revision

abbrev first_half : List Operation
first_half =
    prepares true
    ∷ calls (record { id = "call-1"; name = "search"; arguments = "{}" } ∷ [])
    ∷ answers (result "collect")
    ∷ []

abbrev second_half : List Operation
second_half =
    prepares false
    ∷ answers (result "report")
    ∷ finalizes
    ∷ responds "answer" true true
    ∷ responds "again" false true
    ∷ []

abbrev midway : ExecutionState
midway = run strip digest fingerprint ref_of 3 1 (some to_replan) (new_state two_steps) first_half

abbrev last_state : ExecutionState
last_state = run strip digest fingerprint ref_of 3 1 (some to_replan) midway second_half

read_steps : reread strip digest two_steps.steps ≡ ok two_steps.steps
unfolding reread StepCode.post_init string_list
read_steps = refl

collected : lookup "collect" midway.committed_results ≡ some (result "collect")
unfolding run perform prepare_current_step start_current start_open start_step
    move_to_next_open_step current current_id decide by_calls decide_calls decide_records
    decide_repair repair_error_of decide_text decide_answer decide_result take_result after_set
    validate_pending validate_in rule by_kind validate check_status check_evidence tool_call_records
    records_from activate mark_tool_round_complete mark_in set_pending_result set_result
    current_step commit_pending commit_of commit_result commit commit_current committed after_commit
    new_state lookup insert
collected = refl

-- The whole run ends with its output emitted.
is_done_at_end : last_state.phase ≡ done
unfolding run perform prepare_current_step start_current start_open start_step
    move_to_next_open_step current current_id decide by_calls decide_calls decide_records
    decide_repair repair_error_of decide_text decide_answer decide_result take_result after_set
    validate_pending validate_in rule by_kind validate check_status check_evidence tool_call_records
    records_from activate mark_tool_round_complete mark_in set_pending_result set_result
    current_step commit_pending commit_of commit_result commit commit_current committed after_commit
    new_state lookup insert is_complete begin_finalization record_final_response
is_done_at_end = refl

-- A call id that was used before is not let through.
repeated_retries :
    (run strip digest fingerprint ref_of 3 1 (some to_replan) midway (
      prepares true
      ∷ calls (record { id = "call-1"; name = "search"; arguments = "{}" } ∷ [])
      ∷ [])).active_tool_calls
    ≡ []
unfolding run perform prepare_current_step start_current start_open start_step
    move_to_next_open_step current current_id decide by_calls decide_calls decide_records
    decide_repair repair_error_of decide_text decide_answer decide_result take_result after_set
    validate_pending validate_in rule by_kind validate check_status check_evidence tool_call_records
    records_from activate mark_tool_round_complete mark_in set_pending_result set_result
    current_step commit_pending commit_of commit_result commit commit_current committed after_commit
    new_state lookup insert fallback_or retry_invalid_result retry_of is_complete
repeated_retries = refl

-- A blocked result that names what it misses makes a new plan, which keeps the first step.
abbrev replanning : List Operation
replanning =
    prepares false
    ∷ decides (λ s r. judged (record { kind = StepKinds.replans; unmet_criteria = [] }) "blocked")
        "" (record { finish_reason = "stop"; tool_calls = []; decoded = some (result "report") })
        (revised (record {
          steps = step "collect" [] ∷ step "write" ("collect" ∷ []) ∷ [];
          current_index = 0;
          version = 1;
        }))
    ∷ []

abbrev replanned : ExecutionState
replanned = run strip digest fingerprint ref_of 3 1 (some to_replan) midway replanning

replanned_at : (replanned.current_step_id ≡ some "write") × (replanned.replan_count ≡ 1)
unfolding run perform prepare_current_step start_current start_open start_step
    move_to_next_open_step current current_id decide by_calls decide_calls decide_records
    decide_repair repair_error_of decide_text decide_answer decide_result take_result after_set
    validate_pending validate_in rule by_kind validate check_status check_evidence tool_call_records
    records_from activate mark_tool_round_complete mark_in set_pending_result set_result
    current_step commit_pending commit_of commit_result commit commit_current committed after_commit
    new_state lookup insert is_complete replan apply_replan after_apply adopt_if_made adopt merge
    reread StepCode.post_init string_list PlanCode.post_init validate_dependency_graph visit
    for_each raised_by after_replan
replanned_at = (refl, refl)

run-post_init_example :
    (reread strip digest midway.plan.steps ≡ ok midway.plan.steps)
    × (PlanCode.post_init midway.plan ≡ ok midway.plan)
    × (post_init strip ref_of midway ≡ ok midway)
run-post_init_example =
    run-post_init strip digest fingerprint ref_of 3 1 (some to_replan) (λ s. refl) canonical
      two_steps two_steps first_half read_steps refl accepted

run-emission_count_example :
    (emission_count strip digest fingerprint ref_of 3 1
        (some to_replan)
        (new_state two_steps)
        first_half
      ≤ 1)
    × (emission_count strip digest fingerprint ref_of 3 1
          (some to_replan)
          (new_state two_steps)
          first_half
        ≡ one_if midway.final_emitted)
run-emission_count_example =
    run-emission_count strip digest fingerprint ref_of 3 1 (some to_replan) two_steps first_half

run-keeps_committed_example :
    lookup "collect" last_state.committed_results ≡ some (result "collect")
run-keeps_committed_example =
    run-keeps_committed strip digest fingerprint ref_of 3 1 (some to_replan) (λ s. refl) canonical
      two_steps two_steps first_half second_half (result "collect") "collect" read_steps refl
      accepted collected

abbrev once_replanned : ExecutionState
once_replanned =
    run strip digest fingerprint ref_of 3 1 (some to_replan) (new_state two_steps)
      (first_half ++ replanning)

run-revision_count_example :
    (revision_count strip digest fingerprint ref_of 3 1
        (some to_replan)
        (new_state two_steps)
        (first_half ++ replanning)
      ≤ once_replanned.replan_count)
    × (once_replanned.replan_count ≤ 1)
    × (two_steps.version + once_replanned.replan_count ≤ once_replanned.plan.version)
run-revision_count_example =
    run-revision_count strip digest fingerprint ref_of 3 1 (some to_replan) two_steps
      (first_half ++ replanning)
