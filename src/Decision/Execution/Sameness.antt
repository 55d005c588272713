-- ===== src/Decision/Execution/Sameness.antt =====
-- moduagent/decision/planning.py: the writes that leave the final flag, the committed results and the
-- count of replans.
use moduagent.Base.{
  ℕ, ◌+◌, ◌≡◌, refl, String, Bool, true, false, ◌||◌, Option, none, some, Result, ok, raise, Dict,
  leb, Bool-cases, inl, inr, if◌then◌else◌, str_eq,
}
use moduagent.Decision.Planning.Steps.{PlanStep, Error}
use moduagent.Decision.Planning.Results.{StepResult}
use moduagent.Decision.Planning.Plan.{Plan, is_complete}
use moduagent.Decision.Execution.State.{
  ExecutionState, ActiveCall, RunPhase, plans, step_prepare, act, step_validate, verify, finalize,
  done, fails, current_step,
}
use moduagent.Decision.Execution.Checks.{is_done}
use moduagent.Decision.Execution.Operations.{
  Outcome, fail_current_step, mark_in, mark_tool_round_complete, set_pending_result, set_result,
  begin_finalization,
}
use moduagent.Decision.Execution.Calls.{activate, retry_of, retry_invalid_result, retry_validation}
use moduagent.Decision.Execution.Replan.{
  Revision, revised, tripped, failed_revision, merge, adopt, adopt_if_made, after_failed_revision,
  apply_replan, after_apply, replan,
}
use moduagent.Decision.Execution.Policy.{fail_with, drop_result, noted, terminal_failure}

-- A change that touches neither the final flag, nor the committed results, nor the count of replans.
pub record Same (st now : ExecutionState) : Type 0 where
  pub emitted : now.final_emitted ≡ st.final_emitted
  pub results : now.committed_results ≡ st.committed_results
  pub replans : now.replan_count ≡ st.replan_count

pub same : (st : ExecutionState) → Same st st
same st = record { emitted = refl; results = refl; replans = refl }

pub either :
    (b : Bool) (st x y : ExecutionState) → Same st x → Same st y → Same st (if b then x else y)
either true st x y h k = h
either false st x y h k = k

pub mark_in-Same :
    (phase : RunPhase) (st now : ExecutionState) → Same st now → Same st (mark_in phase now).0
unfolding mark_in
mark_in-Same act st now s = record { emitted = s.emitted; results = s.results; replans = s.replans }
mark_in-Same plans st now s = s
mark_in-Same step_prepare st now s = s
mark_in-Same step_validate st now s = s
mark_in-Same verify st now s = s
mark_in-Same finalize st now s = s
mark_in-Same done st now s = s
mark_in-Same fails st now s = s

pub set_result-Same :
    (st : ExecutionState) (r : StepResult) (o : Option PlanStep) → Same st (set_result st r o).0
unfolding set_result
set_result-Same st r none = same st
set_result-Same st r (some x) = elim (Bool-cases (str_eq r.step_id x.step_id)) [
  | inl y ↦ rw y (record { emitted = refl; results = refl; replans = refl })
  | inr n ↦ rw n (same st)
]

pub retry_of-Same :
    (n : ℕ) (reason : String) (awaiting : Bool) (st : ExecutionState) (o : Option PlanStep)
    → Same st (retry_of n reason awaiting st o)
unfolding retry_of fail_current_step
retry_of-Same n reason awaiting st none = record { emitted = refl; results = refl; replans = refl }
retry_of-Same n reason awaiting st (some x) =
    either (leb n (x.attempt_count + 1)) st _ _
      (record { emitted = refl; results = refl; replans = refl })
      (record { emitted = refl; results = refl; replans = refl })

pub begin_finalization-Same : (st : ExecutionState) → Same st (begin_finalization st).0
unfolding begin_finalization
begin_finalization-Same st = elim (Bool-cases (st.final_emitted || is_done st.phase)) [
  | inl d ↦ rw d (same st)
  | inr d ↦ elim (Bool-cases (is_complete st.plan)) [
    | inr c ↦ rw (d, c) (same st)
    | inl c ↦ rw (d, c) (record { emitted = refl; results = refl; replans = refl })
  ]
]

pub activate-Same :
    (st : ExecutionState) (records : Dict ActiveCall) → Same st (activate st records).0
unfolding activate mark_tool_round_complete
activate-Same st records =
    mark_in-Same st.phase st _ (record { emitted = refl; results = refl; replans = refl })

pub retry_invalid-Same :
    (n : ℕ) (reason : String) (st : ExecutionState) → Same st (retry_invalid_result n reason st)
unfolding retry_invalid_result
retry_invalid-Same n reason st = retry_of-Same n reason st.awaiting_step_result st (current_step st)

pub retry_validation-Same :
    (n : ℕ) (reason : String) (st : ExecutionState) → Same st (retry_validation n reason st)
unfolding retry_validation
retry_validation-Same n reason st = retry_of-Same n reason true st (current_step st)

pub set_pending_result-Same :
    (st : ExecutionState) (r : StepResult) → Same st (set_pending_result st r).0
unfolding set_pending_result
set_pending_result-Same st r = set_result-Same st r (current_step st)

pub fail_current_step-Same : (st : ExecutionState) → Same st (fail_current_step st)
unfolding fail_current_step
fail_current_step-Same st = record { emitted = refl; results = refl; replans = refl }

pub fail_with-Same : (text : String) (st : ExecutionState) → Same st (fail_with text st)
unfolding fail_with fail_current_step
fail_with-Same text st = record { emitted = refl; results = refl; replans = refl }

pub drop_result-Same : (text : String) (st : ExecutionState) → Same st (drop_result text st)
unfolding drop_result fail_current_step
drop_result-Same text st = record { emitted = refl; results = refl; replans = refl }

pub noted-Same : (st : ExecutionState) (reason : String) → Same st (noted st reason)
unfolding noted
noted-Same st reason = record { emitted = refl; results = refl; replans = refl }

pub terminal-Same :
    (pending : Dict String) (reason : String) (st : ExecutionState)
    → Same st (terminal_failure pending reason st)
unfolding terminal_failure
terminal-Same pending reason st = record { emitted = refl; results = refl; replans = refl }

pub awaiting-Same :
    (st : ExecutionState) (text : Option String)
    → Same st (record st { awaiting_step_result = true; validation_error = text })
awaiting-Same st text = record { emitted = refl; results = refl; replans = refl }

-- A change that touches neither the final flag nor the committed results.
pub record SameOutputs (st now : ExecutionState) : Type 0 where
  pub emitted : now.final_emitted ≡ st.final_emitted
  pub results : now.committed_results ≡ st.committed_results

same_outputs : (st : ExecutionState) → SameOutputs st st
same_outputs st = record { emitted = refl; results = refl }

adopt_if_made-SameOutputs :
    (st : ExecutionState) (feedback : String) (o : Result Error Plan)
    → SameOutputs st (adopt_if_made st feedback o).0
unfolding adopt_if_made adopt
adopt_if_made-SameOutputs st feedback (raise e) = same_outputs st
adopt_if_made-SameOutputs st feedback (ok merged) = record { emitted = refl; results = refl }

module _ (strip digest : String → String) where
  apply_replan-SameOutputs :
      (st : ExecutionState) (feedback : String) (revision : Revision)
      → SameOutputs st (apply_replan strip digest st feedback revision).0
  unfolding apply_replan after_failed_revision fail_current_step
  apply_replan-SameOutputs st feedback tripped = same_outputs st
  apply_replan-SameOutputs st feedback failed_revision = record { emitted = refl; results = refl }
  apply_replan-SameOutputs st feedback (revised revision) =
      adopt_if_made-SameOutputs st feedback (merge strip digest st revision)

  after_apply-SameOutputs :
      (st : ExecutionState) (o : Outcome)
      → SameOutputs st o.0
      → SameOutputs st (after_apply strip digest o).0
  unfolding after_apply
  after_apply-SameOutputs st (now, ok ended) s = s
  after_apply-SameOutputs st (now, raise e) s = s

  pub replan-SameOutputs :
      (max_replans : ℕ) (st : ExecutionState) (feedback : String) (revision : Revision)
      → SameOutputs st (replan strip digest max_replans st feedback revision).0
  unfolding replan fail_current_step
  replan-SameOutputs max_replans st feedback revision =
      elim (Bool-cases (leb max_replans st.replan_count)) [
        | inl e ↦ rw e (record { emitted = refl; results = refl })
        | inr e ↦ rw e (
            after_apply-SameOutputs st (apply_replan strip digest st feedback revision)
              (apply_replan-SameOutputs st feedback revision))
      ]
