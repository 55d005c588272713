-- ===== src/Decision/Execution/Replan.antt =====
-- moduagent/decision/planning.py: `_apply_replan` and `_replan` of `PlanAndExecutePolicy`. What the plan
-- generator answers is an argument. `strip` is Python's `str.strip`, and `digest` gives the first twelve
-- hexadecimal digits of a text's SHA-256. A step that `from_dict` reads from its own `to_dict` is made
-- again by `PlanStep.__post_init__`.
use moduagent.Base.{
  ℕ, ◌+◌, max, String, Bool, true, false, Option, none, some, List, [], ◌∷◌, ◌++◌, map, Result, ok,
  raise, ◌>>=◌, contains, length, leb, Dict, insert, keys, if◌then◌else◌,
}
use moduagent.Decision.Planning.Steps.{PlanStep, Error, runtime_error, model_guard_tripped}
use moduagent.Decision.Planning.Steps as StepCode
use moduagent.Decision.Planning.Results.{StepResult}
use moduagent.Decision.Planning.Plan.{Plan}
use moduagent.Decision.Planning.Plan as PlanCode
use moduagent.Decision.Execution.State.{ExecutionState, step_prepare, find_step, current_id}
use moduagent.Decision.Execution.Operations.{Outcome, fail_current_step}

-- How `revise` ends: with a plan, in the model guard's trip, or in another exception.
pub data Revision : Type 0 where
  revised : Plan → Revision
  tripped failed_revision : Revision

abbrev pub is_stored : Dict StepResult → PlanStep → Bool
is_stored results s = contains s.step_id (keys results)

-- `[step for step in steps if step.step_id in committed_ids]`
abbrev pub stored_steps : Dict StepResult → List PlanStep → List PlanStep
stored_steps results [] = []
stored_steps results (s ∷ ss) =
    let rest = stored_steps results ss in if is_stored results s then s ∷ rest else rest

abbrev pub other_steps : Dict StepResult → List PlanStep → List PlanStep
other_steps results [] = []
other_steps results (s ∷ ss) =
    let rest = other_steps results ss in if is_stored results s then rest else s ∷ rest

-- A step of the revision has at least the attempts of the open step with its id.
abbrev pub with_attempts_of : Option PlanStep → PlanStep → PlanStep
with_attempts_of none s = s
with_attempts_of (some previous) s = record s {
  attempt_count = max s.attempt_count previous.attempt_count;
}

abbrev pub noted_failure : Option (Dict String) → Option (Dict String) → Option (Dict String)
noted_failure none failure = failure
noted_failure (some pending) failure =
    some (insert "terminal_reason" "plan revision failed" pending)

-- The writes after a revision that failed.
unfoldable pub after_failed_revision : ExecutionState → ExecutionState
after_failed_revision st =
    record (fail_current_step
      (record st { failure = noted_failure st.pending_tool_failure st.failure })) {
        validation_error = some "plan revision failed";
        pending_step_result = none;
        awaiting_step_result = false;
      }

-- The writes after a revision.
unfoldable pub adopt : ExecutionState → String → Plan → ExecutionState
adopt st feedback merged = record st {
  plan = merged;
  replan_count = st.replan_count + 1;
  pending_step_result = none;
  pending_tool_failure = none;
  failure = none;
  active_tool_calls = [];
  validation_error = some feedback;
  awaiting_step_result = false;
  phase = step_prepare;
  current_step_id = current_id merged;
}

unfoldable pub adopt_if_made : ExecutionState → String → Result Error Plan → Outcome
adopt_if_made st feedback (raise e) = (st, raise e)
adopt_if_made st feedback (ok merged) = (adopt st feedback merged, ok tt)

module _ (strip digest : String → String) where
  -- `[PlanStep.from_dict(step.to_dict()) for step in steps]`
  unfoldable pub reread : List PlanStep → Result Error (List PlanStep)
  reread [] = ok []
  reread (s ∷ ss) = do t ← StepCode.post_init strip digest s; ts ← reread ss; ok (t ∷ ts)

  -- The plan that a revision makes with the committed steps.
  unfoldable pub merge : ExecutionState → Plan → Result Error Plan
  merge st revision = do
    committed ← reread (stored_steps st.committed_results st.plan.steps)
    opened ← reread (other_steps st.committed_results revision.steps)
    let previous = other_steps st.committed_results st.plan.steps
    PlanCode.post_init (record {
      steps = committed ++ map (λ s. with_attempts_of (find_step s.step_id previous) s) opened;
      current_index = length committed;
      version = max st.plan.version revision.version + 1;
    })

  -- `_apply_replan`
  unfoldable pub apply_replan : ExecutionState → String → Revision → Outcome
  apply_replan st feedback tripped = (st, raise model_guard_tripped)
  apply_replan st feedback failed_revision = (after_failed_revision st, raise runtime_error)
  apply_replan st feedback (revised revision) = adopt_if_made st feedback (merge st revision)

  unfoldable pub after_apply : Outcome → ExecutionState × Result Error Bool
  after_apply (st, raise e) = (st, raise e)
  after_apply (st, ok done) = (st, ok false)

  -- `_replan`, with whether it fails the run.
  unfoldable pub replan :
      ℕ → ExecutionState → String → Revision → ExecutionState × Result Error Bool
  replan max_replans st feedback revision =
      if leb max_replans st.replan_count
      then (
        record (fail_current_step st) { validation_error = some "maximum replans exceeded" },
        ok true,
      )
      else after_apply (apply_replan st feedback revision)
