-- ===== src/Decision/Planning/Samples.antt =====
-- Tests of plans, and the theorems about them at a plan of two steps.
use moduagent.Base.{
  ◌+◌, ◌≡◌, ◌≢◌, refl, String, true, none, some, List, [], ◌∷◌, ok, raise, all, contains, lookup,
  if◌then◌else◌,
}
use moduagent.Decision.Planning.Steps.{
  PlanStep, PlanStepStatus, pending, in_progress, completed, failed, skipped, Error, value_error,
  key_error, recursion_error, string_list,
}
use moduagent.Decision.Planning.Steps as StepCode
use moduagent.Decision.Planning.Normal.{post_init_again}
use moduagent.Decision.Planning.Graph.{visit, for_each}
use moduagent.Decision.Planning.Plan.{
  Plan, current, move_to_next_open_step, raised_by, validate_dependency_graph, post_init,
}
use moduagent.Decision.Planning.Moves.{
  start_step, start_open, start_current, committed, commit_current, commit, after_commit, names,
}
use moduagent.Decision.Planning.Results.{
  StepResult, without_criteria, commits, retries, fails, check_evidence, check_status, validate,
}
use moduagent.Decision.Planning.Results.{completed as completed_result}
use moduagent.Decision.Planning.Evolution.{Follows, open_count}
use moduagent.Decision.Planning.Progress.{Committed}
use moduagent.Decision.Planning.Acceptance.{
  is_accepted, post_init_lem, validate_dependency_graph-ends,
}
use moduagent.Decision.Planning.Runs.{
  Move, starts, advances, apply, run, commits_step, commit_total,
}
use moduagent.Decision.Planning.Runs as RunCode
use moduagent.Decision.Planning.Outcome.{
  closed_ids, commit-Committed, run-keeps_closed, run-commit_total,
}

abbrev strip : String → String
strip s = s

abbrev raw_step : String → PlanStep
raw_step objective = record {
  description = objective;
  status = pending;
  expected_output = none;
  metadata = [];
  step_id = objective;
  objective = none;
  completion_criteria = [];
  dependencies = [];
  allowed_tools = [];
  attempt_count = 0;
  result_ref = none;
}

abbrev made_step : String → PlanStep
made_step objective = record (raw_step objective) {
  objective = some objective;
  completion_criteria = "Complete the objective: collect" ∷ [];
}

made : StepCode.post_init strip strip (raw_step "collect") ≡ ok (made_step "collect")
unfolding StepCode.post_init string_list
made = refl

post_init_again_example :
    StepCode.post_init strip strip (made_step "collect") ≡ ok (made_step "collect")
post_init_again_example =
    post_init_again strip strip (λ s. refl) (raw_step "collect") (made_step "collect") made

-- The second step depends on the first.
abbrev first : PlanStep
first = made_step "collect"

abbrev second : PlanStep
second = record (made_step "report") { dependencies = "collect" ∷ [] }

abbrev two_steps : Plan
two_steps = record { steps = first ∷ second ∷ []; current_index = 0; version = 1 }

post_init_lem_example :
    post_init two_steps
    ≡ (if is_accepted two_steps then ok (move_to_next_open_step two_steps) else raise value_error)
post_init_lem_example = post_init_lem two_steps

accepted : post_init two_steps ≡ ok two_steps
unfolding post_init validate_dependency_graph visit for_each lookup raised_by move_to_next_open_step
accepted = refl

-- A step that depends on itself.
abbrev circular : List PlanStep
circular = record first { dependencies = "report" ∷ [] } ∷ second ∷ []

circular_raises : validate_dependency_graph circular ≡ raise value_error
unfolding validate_dependency_graph visit for_each lookup raised_by
circular_raises = refl

validate_dependency_graph-ends_example : validate_dependency_graph circular ≢ raise recursion_error
validate_dependency_graph-ends_example = validate_dependency_graph-ends circular

abbrev opening : List Move
opening = starts ∷ RunCode.commits "ref" (some "collect") ∷ []

abbrev midway : Plan
midway = record {
  steps =
      record first { status = completed; result_ref = some "ref" }
      ∷ record second { status = in_progress }
      ∷ [];
  current_index = 1;
  version = 1;
}

abbrev finished : Plan
finished = record {
  steps =
      record first { status = completed; result_ref = some "ref" }
      ∷ record second { status = completed; result_ref = some "ref-2" }
      ∷ [];
  current_index = 2;
  version = 1;
}

opened : run two_steps opening ≡ midway
unfolding run apply start_current start_open start_step commit commit_current committed after_commit
    move_to_next_open_step current
opened = refl

second_commit : commit (run two_steps opening) "ref-2" none ≡ ok finished
unfolding run apply start_current start_open start_step commit commit_current committed after_commit
    move_to_next_open_step current
second_commit = refl

commit-Committed_example :
    (s : PlanStep) × (names none s.step_id ≡ true)
    × (all (λ d. contains d (closed_ids (run two_steps opening).steps)) s.dependencies ≡ true)
    × Committed (run two_steps opening) s "ref-2" finished
commit-Committed_example =
    commit-Committed two_steps two_steps opening "ref-2" none finished refl accepted second_commit

run-keeps_closed_example :
    Follows (run two_steps opening).steps (run (run two_steps opening) (advances none ∷ [])).steps
run-keeps_closed_example =
    run-keeps_closed two_steps two_steps opening (advances none ∷ []) refl accepted

run-commit_total_example :
    open_count (run two_steps opening).steps + commit_total two_steps opening ≡ 2
run-commit_total_example = run-commit_total two_steps two_steps opening refl accepted

-- A completed result without evidence for the one criterion is retried.
abbrev unproven : StepResult
unproven = record {
  step_id = "collect";
  status = completed_result;
  facts = [];
  artifacts = [];
  uncertainties = [];
  missing_inputs = [];
  completion_evidence = [];
}

unproven_retries :
    validate strip first unproven
    ≡ record { kind = retries; unmet_criteria = "Complete the objective: collect" ∷ [] }
unfolding validate check_status check_evidence
unproven_retries = refl

proven_commits :
    validate strip first (record unproven { completion_evidence = "seen" ∷ [] })
    ≡ without_criteria commits
unfolding validate check_status check_evidence
proven_commits = refl

other_step_fails : validate strip second unproven ≡ without_criteria fails
unfolding validate
other_step_fails = refl
