-- ===== src/Decision/Execution/History.antt =====
-- moduagent/decision/planning.py: the calls of a run's state, in any order. `begin` makes the first state.
use moduagent.Base.{
  ℕ, ◌+◌, String, Bool, true, false, ◌&&◌, Option, none, List, [], ◌∷◌, Result, ok, raise,
}
use moduagent.Decision.Planning.Steps.{PlanStep, Error}
use moduagent.Decision.Planning.Results.{StepResult}
use moduagent.Decision.Planning.Plan.{Plan}
use moduagent.Decision.Planning.Runs.{one_if}
use moduagent.Decision.Execution.State.{ExecutionState, step_prepare, current_id}
use moduagent.Decision.Execution.Operations.{
  prepare_current_step, mark_tool_round_complete, set_pending_result, fail_current_step,
  commit_pending, begin_finalization, record_final_response,
}
use moduagent.Decision.Execution.Replan.{Revision}
use moduagent.Decision.Execution.Policy.{Response, Verdict, Fallback, decide, validate_pending}

-- The state of a new plan, of `begin`.
unfoldable pub new_state : Plan → ExecutionState
new_state p = record {
  phase = step_prepare;
  plan = p;
  current_step_id = current_id p;
  committed_results = [];
  pending_step_result = none;
  validation_error = none;
  awaiting_step_result = false;
  replan_count = 0;
  finalization_count = 0;
  final_response = none;
  final_persisted = false;
  final_emitted = false;
  tool_repair_counts = [];
  pending_tool_failure = none;
  total_tool_repairs = 0;
  failure = none;
  active_tool_calls = [];
  seen_tool_call_ids = [];
}

-- A call of a method, or of the policy's `decide` and `validate_pending` with what the validator and the
-- plan generator answer.
pub data Operation : Type 0 where
  prepares : Bool → Operation
  marks : Operation
  sets : StepResult → Operation
  fails_step : Operation
  commits_result : Operation
  finalizes : Operation
  responds : String → Bool → Bool → Operation
  decides : (PlanStep → StepResult → Verdict) → String → Response → Revision → Operation
  validates : (PlanStep → StepResult → Verdict) → Revision → Operation

module _ (strip digest : String → String) (fingerprint : String → Option String)
    (ref_of : StepResult → String) (max_step_attempts max_replans : ℕ)
    (recovery : Option Fallback) where
  unfoldable pub perform : ExecutionState → Operation → ExecutionState
  perform st (prepares has_tools) = prepare_current_step st has_tools
  perform st marks = (mark_tool_round_complete st).0
  perform st (sets r) = (set_pending_result st r).0
  perform st fails_step = fail_current_step st
  perform st commits_result = (commit_pending ref_of st).0
  perform st finalizes = (begin_finalization st).0
  perform st (responds response persisted emitted) =
      (record_final_response st response persisted emitted).0
  perform st (decides validator mismatch response revision) =
      (decide strip digest fingerprint ref_of max_step_attempts max_replans recovery validator
        mismatch st response revision).0
  perform st (validates validator revision) =
      (validate_pending strip digest fingerprint ref_of max_step_attempts max_replans recovery
        validator st revision).0

  unfoldable pub run : ExecutionState → List Operation → ExecutionState
  run st [] = st
  run st (o ∷ os) = run (perform st o) os

abbrev pub is_ok : Result Error (Unit {0}) → Bool
is_ok (ok x) = true
is_ok (raise e) = false

-- Does the operation emit the final output?
unfoldable pub emits : ExecutionState → Operation → Bool
emits st (responds response persisted emitted) =
    emitted && is_ok (record_final_response st response persisted emitted).1
emits st _ = false

module _ (strip digest : String → String) (fingerprint : String → Option String)
    (ref_of : StepResult → String) (max_step_attempts max_replans : ℕ)
    (recovery : Option Fallback) where
  -- How often the final output is emitted.
  unfoldable pub emission_count : ExecutionState → List Operation → ℕ
  emission_count st [] = 0
  emission_count st (o ∷ os) =
      let rest =
        emission_count
          (perform strip digest fingerprint ref_of max_step_attempts max_replans recovery st o)
          os in
      one_if (emits st o) + rest
