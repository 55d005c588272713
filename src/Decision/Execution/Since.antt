-- ===== src/Decision/Execution/Since.antt =====
-- moduagent/decision/planning.py: a replan and the version of the plan.
use native.Mathlib.Nat.{le-max_left}
use moduagent.Base.{
  ℕ, ◌+◌, ◌≤◌, ◌<◌, ◌≡◌, refl, String, Result, ok, raise, >>=-ok-inv, leb, arith, Bool-cases, inl,
  inr,
}
use moduagent.Decision.Planning.Steps.{Error}
use moduagent.Decision.Planning.Plan.{Plan}
use moduagent.Decision.Execution.State.{ExecutionState}
use moduagent.Decision.Execution.Operations.{Outcome}
use moduagent.Decision.Execution.Replan.{
  Revision, revised, tripped, failed_revision, reread, merge, adopt, adopt_if_made,
  after_failed_revision, apply_replan, after_apply, replan, stored_steps, other_steps,
}
use moduagent.Decision.Execution.Sameness.{fail_current_step-Same}
use moduagent.Decision.Execution.Versions.{Keeps, fail_current_step-Keeps, post_init-version}

-- Since a first state, either nothing was replanned and the plan keeps its version, or the count of
-- replans grew, and the version by as much at least.
pub data Since (first st : ExecutionState) : Type 0 where
  unrevised :
      st.plan.version ≡ first.plan.version → st.replan_count ≡ first.replan_count → Since first st
  revised_since :
      first.replan_count < st.replan_count
      → first.plan.version + st.replan_count ≤ st.plan.version + first.replan_count
      → Since first st

pub still :
    {first st : ExecutionState} (now : ExecutionState)
    → Since first st
    → now.replan_count ≡ st.replan_count
    → Keeps st now
    → Since first now
still now (unrevised v n) e k = unrevised (omega (arith, v, k)) (omega (arith, n, e))
still now (revised_since n v) e k = revised_since (omega (arith, n, e)) (omega (arith, v, e, k))

grown :
    {first st : ExecutionState} (now : ExecutionState)
    → Since first st
    → now.replan_count ≡ st.replan_count + 1
    → st.plan.version < now.plan.version
    → Since first now
grown now (unrevised v n) e k = revised_since (omega (arith, n, e)) (omega (arith, v, n, e, k))
grown now (revised_since n v) e k = revised_since (omega (arith, n, e)) (omega (arith, v, n, e, k))

module _ (strip digest : String → String) where
  merge-version :
      (st : ExecutionState) (revision merged : Plan)
      → merge strip digest st revision ≡ ok merged
      → st.plan.version < merged.version
  unfolding merge
  merge-version st revision merged h =
      let results = st.committed_results in
      let (committed, _, h1) =
        >>=-ok-inv (reread strip digest (stored_steps results st.plan.steps)) _ h in
      let (opened, _, h2) =
        >>=-ok-inv (reread strip digest (other_steps results revision.steps)) _ h1 in
      omega (arith, post_init-version _ merged h2, le-max_left st.plan.version revision.version)

  module _ (first : ExecutionState) where
    adopt_if_made-Since :
        (st : ExecutionState) (feedback : String) (o : Result Error Plan)
        → ((merged : Plan) → o ≡ ok merged → st.plan.version < merged.version)
        → Since first st
        → Since first (adopt_if_made st feedback o).0
    unfolding adopt_if_made adopt
    adopt_if_made-Since st feedback (raise e) v h = h
    adopt_if_made-Since st feedback (ok merged) v h =
        grown (adopt st feedback merged) h refl (v merged refl)

    apply_replan-Since :
        (st : ExecutionState) (feedback : String) (revision : Revision)
        → Since first st
        → Since first (apply_replan strip digest st feedback revision).0
    unfolding apply_replan after_failed_revision
    apply_replan-Since st feedback tripped h = h
    apply_replan-Since st feedback failed_revision h =
        still _ h ((fail_current_step-Same _).replans) (fail_current_step-Keeps _)
    apply_replan-Since st feedback (revised revision) h =
        adopt_if_made-Since st feedback (merge strip digest st revision)
          (λ merged e. merge-version st revision merged e) h

    after_apply-Since : (o : Outcome) → Since first o.0 → Since first (after_apply strip digest o).0
    unfolding after_apply
    after_apply-Since (st, ok ended) h = h
    after_apply-Since (st, raise e) h = h

    pub replan-Since :
        (n : ℕ) (st : ExecutionState) (feedback : String) (revision : Revision)
        → Since first st
        → Since first (replan strip digest n st feedback revision).0
    unfolding replan
    replan-Since n st feedback revision h = elim (Bool-cases (leb n st.replan_count)) [
      | inl e ↦ rw e (still _ h (fail_current_step-Same st).replans (fail_current_step-Keeps st))
      | inr e ↦ rw e (
          after_apply-Since (apply_replan strip digest st feedback revision)
            (apply_replan-Since st feedback revision h))
    ]
