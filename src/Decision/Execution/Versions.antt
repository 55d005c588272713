-- ===== src/Decision/Execution/Versions.antt =====
-- moduagent/decision/planning.py: the version of a run's plan, which each replan raises and nothing else
-- changes.
use moduagent.Base.{
  ℕ, ◌+◌, ◌≡◌, refl, ◌∙◌, String, Bool, true, Option, none, some, Result, ok, raise, leb, arith,
  Bool-cases, inl, inr,
}
use moduagent.Decision.Planning.Steps.{completed, PlanStep, Error}
use moduagent.Decision.Planning.Results.{StepResult}
use moduagent.Decision.Planning.Plan.{Plan, current, move_to_next_open_step, is_complete}
use moduagent.Decision.Planning.Plan as PlanCode
use moduagent.Decision.Planning.Acceptance.{post_init_lem}
use moduagent.Decision.Planning.Progress.{start_current-version}
use moduagent.Decision.Planning.Moves.{
  with_current, commit_result, commit, commit_current, committed,
}
use moduagent.Decision.Execution.State.{
  ExecutionState, RunPhase, current_step, act, plans, step_prepare, step_validate, verify, finalize,
  done, fails,
}
use moduagent.Decision.Execution.Operations.{
  fail_current_step, fail_step, fail_at, set_result, set_pending_result, commit_pending, commit_of,
  after_commit, mark_in, begin_finalization, record_final_response, prepare_current_step,
}
use moduagent.Decision.Execution.Calls.{
  count_at, count_attempt, retry_of, retry_invalid_result, retry_validation,
}

-- The plan keeps its version.
abbrev pub Keeps : ExecutionState → ExecutionState → Type 0
Keeps st now = now.plan.version ≡ st.plan.version

fail_at-version : (p : Plan) (o : Option PlanStep) → (fail_at p o).version ≡ p.version
fail_at-version p none = refl
fail_at-version p (some s) = refl

fail_step-version : (p : Plan) (o : Option String) → (fail_step p o).version ≡ p.version
fail_step-version p none = fail_at-version p (current p)
fail_step-version p (some id) = refl

pub fail_current_step-Keeps : (st : ExecutionState) → Keeps st (fail_current_step st)
unfolding fail_current_step
fail_current_step-Keeps st = fail_step-version st.plan st.current_step_id

count_at-version : (p : Plan) (o : Option PlanStep) → (count_at p o).version ≡ p.version
count_at-version p none = refl
count_at-version p (some s) = refl

count_attempt-version : (p : Plan) (o : Option String) → (count_attempt p o).version ≡ p.version
count_attempt-version p none = count_at-version p (current p)
count_attempt-version p (some id) = refl

retry_of-Keeps :
    (n : ℕ) (reason : String) (awaiting : Bool) (st : ExecutionState) (o : Option PlanStep)
    → Keeps st (retry_of n reason awaiting st o)
unfolding retry_of
retry_of-Keeps n reason awaiting st none = fail_current_step-Keeps st
retry_of-Keeps n reason awaiting st (some s) =
    let counted : ExecutionState = record st {
      plan = count_attempt st.plan st.current_step_id;
      validation_error = some reason;
      pending_step_result = none;
    } in
    let same = count_attempt-version st.plan st.current_step_id in
    elim (Bool-cases (leb n (s.attempt_count + 1))) [
      | inl e ↦ rw e (fail_current_step-Keeps counted ∙ same)
      | inr e ↦ rw e same
    ]

pub retry_invalid-Keeps :
    (n : ℕ) (reason : String) (st : ExecutionState) → Keeps st (retry_invalid_result n reason st)
unfolding retry_invalid_result
retry_invalid-Keeps n reason st =
    retry_of-Keeps n reason st.awaiting_step_result st (current_step st)

pub retry_validation-Keeps :
    (n : ℕ) (reason : String) (st : ExecutionState) → Keeps st (retry_validation n reason st)
unfolding retry_validation
retry_validation-Keeps n reason st = retry_of-Keeps n reason true st (current_step st)

set_result-Keeps :
    (st : ExecutionState) (r : StepResult) (o : Option PlanStep) → Keeps st (set_result st r o).0
unfolding set_result
set_result-Keeps st r none = refl
set_result-Keeps st r (some s) = ground arith

pub set_pending_result-Keeps :
    (st : ExecutionState) (r : StepResult) → Keeps st (set_pending_result st r).0
unfolding set_pending_result
set_pending_result-Keeps st r = set_result-Keeps st r (current_step st)

commit_current-version :
    (p q : Plan) (reference : String) (id : Option String) (o : Option PlanStep)
    → commit_current p reference id o ≡ ok q
    → q.version ≡ p.version
unfolding commit_current committed move_to_next_open_step
commit_current-version p q reference id none e = ground arith
commit_current-version p q reference id (some s) e =
    let closed : Plan =
      with_current p (record s { status = completed; result_ref = some reference }) in
    ground (
      arith,
      start_current-version
          (move_to_next_open_step (record closed { current_index = p.current_index + 1 })),
    )

commit_result-version :
    (ref_of : StepResult → String) (p q : Plan) (r : StepResult) (id : Option String)
    → commit_result ref_of p r id ≡ ok q
    → q.version ≡ p.version
unfolding commit_result commit
commit_result-version ref_of p q r none e = commit_current-version p q (ref_of r) _ (current p) e
commit_result-version ref_of p q r (some id) e =
    commit_current-version p q (ref_of r) _ (current p) e

after_commit-Keeps :
    (st : ExecutionState) (r : StepResult) (o : Result Error Plan)
    → ((q : Plan) → o ≡ ok q → q.version ≡ st.plan.version)
    → Keeps st (after_commit st r o).0
unfolding after_commit
after_commit-Keeps st r (raise e) h = refl
after_commit-Keeps st r (ok q) h = h q refl

commit_of-Keeps :
    (ref_of : StepResult → String) (st : ExecutionState) (o : Option StepResult)
    → Keeps st (commit_of ref_of st o).0
unfolding commit_of
commit_of-Keeps ref_of st none = refl
commit_of-Keeps ref_of st (some r) =
    after_commit-Keeps st r (commit_result ref_of st.plan r (some r.step_id))
      (λ q e. commit_result-version ref_of st.plan q r (some r.step_id) e)

pub commit_pending-Keeps :
    (ref_of : StepResult → String) (st : ExecutionState) → Keeps st (commit_pending ref_of st).0
unfolding commit_pending
commit_pending-Keeps ref_of st = commit_of-Keeps ref_of st st.pending_step_result

pub mark_in-Keeps : (phase : RunPhase) (st : ExecutionState) → Keeps st (mark_in phase st).0
unfolding mark_in
mark_in-Keeps act st = refl
mark_in-Keeps plans st = refl
mark_in-Keeps step_prepare st = refl
mark_in-Keeps step_validate st = refl
mark_in-Keeps verify st = refl
mark_in-Keeps finalize st = refl
mark_in-Keeps done st = refl
mark_in-Keeps fails st = refl

pub begin_finalization-Keeps : (st : ExecutionState) → Keeps st (begin_finalization st).0
unfolding begin_finalization
begin_finalization-Keeps st = ground arith

pub record_final_response-Keeps :
    (st : ExecutionState) (response : String) (persisted emitted : Bool)
    → Keeps st (record_final_response st response persisted emitted).0
unfolding record_final_response
record_final_response-Keeps st response persisted emitted = ground arith

pub prepare_current_step-Keeps :
    (st : ExecutionState) (has_tools : Bool) → Keeps st (prepare_current_step st has_tools)
unfolding prepare_current_step
prepare_current_step-Keeps st has_tools = start_current-version st.plan

-- A plan that is accepted has the version that it was given.
pub post_init-version : (p q : Plan) → PlanCode.post_init p ≡ ok q → q.version ≡ p.version
unfolding move_to_next_open_step
post_init-version p q e = ground (arith, post_init_lem p)
