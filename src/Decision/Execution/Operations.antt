-- ===== src/Decision/Execution/Operations.antt =====
-- moduagent/decision/planning.py: the methods of `ExecutionState`. A method gives the state after it,
-- and what it raises; `ref_of` is `step_result_ref`.
use moduagent.Base.{
  ◌+◌, String, Bool, true, false, not, ◌&&◌, ◌||◌, Option, none, some, List, [], ◌∷◌, Result, ok,
  raise, insert, str_eq, if◌then◌else◌,
}
use moduagent.Decision.Planning.Steps.{PlanStep, failed, Error, value_error, runtime_error}
use moduagent.Decision.Planning.Results.{StepResult}
use moduagent.Decision.Planning.Plan.{Plan, current, is_closed, is_complete}
use moduagent.Decision.Planning.Moves.{start_current, commit_result, with_current}
use moduagent.Decision.Execution.State.{
  ExecutionState, RunPhase, step_prepare, act, step_validate, verify, finalize, done, fails,
  current_step, current_id,
}
use moduagent.Decision.Execution.Checks.{is_done}

abbrev pub Outcome : Type 0
Outcome = ExecutionState × Result Error (Unit {0})

abbrev pub prepared_phase : Option PlanStep → RunPhase
prepared_phase none = verify
prepared_phase (some s) = act

-- `prepare_current_step`
unfoldable pub prepare_current_step : ExecutionState → Bool → ExecutionState
prepare_current_step st has_tools =
    let p = start_current st.plan in
    record st {
      plan = p;
      current_step_id = current_id p;
      pending_step_result = none;
      validation_error = none;
      pending_tool_failure = none;
      active_tool_calls = [];
      awaiting_step_result = not has_tools;
      phase = prepared_phase (current p);
    }

unfoldable pub mark_in : RunPhase → ExecutionState → Outcome
mark_in act st = (record st { awaiting_step_result = true }, ok tt)
mark_in _ st = (st, raise runtime_error)

-- `mark_tool_round_complete`
unfoldable pub mark_tool_round_complete : ExecutionState → Outcome
mark_tool_round_complete st = mark_in st.phase st

unfoldable pub set_result : ExecutionState → StepResult → Option PlanStep → Outcome
set_result st r none = (st, raise runtime_error)
set_result st r (some s) =
    if str_eq r.step_id s.step_id
    then (
      record st { pending_step_result = some r; validation_error = none; phase = step_validate },
      ok tt,
    )
    else (st, raise value_error)

-- `set_pending_result`
unfoldable pub set_pending_result : ExecutionState → StepResult → Outcome
set_pending_result st r = set_result st r (current_step st)

-- A completed or skipped step does not fail.
abbrev pub with_failure : PlanStep → PlanStep
with_failure s = if is_closed s.status then s else record s { status = failed }

-- A change of the step with an id.
abbrev pub update_step : String → (PlanStep → PlanStep) → List PlanStep → List PlanStep
update_step step_id f [] = []
update_step step_id f (s ∷ ss) =
    let rest = update_step step_id f ss in if str_eq s.step_id step_id then f s ∷ ss else s ∷ rest

abbrev pub fail_at : Plan → Option PlanStep → Plan
fail_at p none = p
fail_at p (some s) = with_current p (with_failure s)

abbrev pub fail_step : Plan → Option String → Plan
fail_step p none = fail_at p (current p)
fail_step p (some step_id) = record p { steps = update_step step_id with_failure p.steps }

-- `fail_current_step`
unfoldable pub fail_current_step : ExecutionState → ExecutionState
fail_current_step st = record st {
  plan = fail_step st.plan st.current_step_id;
  active_tool_calls = [];
  phase = fails;
}

unfoldable pub after_commit : ExecutionState → StepResult → Result Error Plan → Outcome
after_commit st r (raise e) = (st, raise e)
after_commit st r (ok p) = (
  record st {
    plan = p;
    committed_results = insert r.step_id r st.committed_results;
    pending_step_result = none;
    validation_error = none;
    pending_tool_failure = none;
    failure = none;
    active_tool_calls = [];
    awaiting_step_result = false;
    current_step_id = current_id p;
    phase = if is_complete p then verify else step_prepare;
  },
  ok tt,
)

module _ (ref_of : StepResult → String) where
  unfoldable pub commit_of : ExecutionState → Option StepResult → Outcome
  commit_of st none = (st, raise runtime_error)
  commit_of st (some r) = after_commit st r (commit_result ref_of st.plan r (some r.step_id))

  -- `commit_pending`
  unfoldable pub commit_pending : ExecutionState → Outcome
  commit_pending st = commit_of st st.pending_step_result

abbrev pub is_finalizing : RunPhase → Bool
is_finalizing finalize = true
is_finalizing _ = false

-- `begin_finalization`
unfoldable pub begin_finalization : ExecutionState → Outcome
begin_finalization st =
    if st.final_emitted || is_done st.phase
    then (st, raise runtime_error)
    else if is_complete st.plan
    then (
      record st {
        finalization_count =
            if is_finalizing st.phase then st.finalization_count else st.finalization_count + 1;
        phase = finalize;
      },
      ok tt,
    )
    else (st, raise runtime_error)

-- `record_final_response`
unfoldable pub record_final_response : ExecutionState → String → Bool → Bool → Outcome
record_final_response st response persisted emitted =
    if st.final_emitted && emitted then (st, raise runtime_error) else (
      record st {
        final_response = some response;
        final_persisted = st.final_persisted || persisted;
        final_emitted = st.final_emitted || emitted;
        phase = if st.final_emitted || emitted then done else st.phase;
      },
      ok tt,
    )
