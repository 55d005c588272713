-- ===== src/Decision/Execution/Preservation.antt =====
-- moduagent/decision/planning.py: each method of `ExecutionState` keeps a sound state sound.
mod Basics
pub use Basics.*
use moduagent.Base.{
  ◌≡◌, refl, sym, ap, subst, ◌∙◌, String, Bool, true, false, not, ◌&&◌, ◌||◌, Option, none, some,
  is_some, List, [], ◌∷◌, Result, ok, raise, if◌then◌else◌, str_eq, eq_iff, eq_refl, arith, Dict,
  all_entries, all_entries-insert, Bool-cases, inl, inr,
}
use moduagent.Decision.Planning.Steps.{PlanStep, completed, Error}
use moduagent.Decision.Planning.Results.{StepResult}
use moduagent.Decision.Planning.Plan.{Plan, current, is_complete}
use moduagent.Decision.Planning.Progress.{start_current-version, start_current-facts}
use moduagent.Decision.Planning.Moves.{start_current, commit, commit_result}
use moduagent.Decision.Planning.Runs.{commit-Inv}
use moduagent.Decision.Execution.State.{
  ExecutionState, ActiveCall, RunPhase, plans, step_prepare, act, step_validate, verify, finalize,
  done, fails, find_step, current_step, step_named,
}
use moduagent.Decision.Execution.Checks.{is_committed, is_pending_for, is_done}
use moduagent.Decision.Execution.Operations.{
  prepare_current_step, prepared_phase, mark_tool_round_complete, mark_in, set_pending_result,
  set_result, fail_current_step, fail_step, commit_pending, commit_of, after_commit,
  begin_finalization, record_final_response,
}
use moduagent.Decision.Execution.Steps.{Retains, Follows-Retains, find_step-id, find_step_unique}
use moduagent.Decision.Execution.Updates.{Rewrites, fail_step-Rewrites}
use moduagent.Decision.Execution.Soundness.{
  same-PlanSound, current_id-IdSound, same-IdSound, CallsSound, Sound,
}

step_named-is_pending :
    (p : Plan) (step_id : Option String) (x : PlanStep) (r : StepResult)
    → step_named p step_id ≡ some x
    → str_eq r.step_id x.step_id ≡ true
    → is_pending_for (some r) step_id ≡ true
step_named-is_pending p none x r e y = refl
step_named-is_pending p (some k) x r e y =
    subst (λ i. str_eq r.step_id i ≡ true) ((eq_iff x.step_id k).0 (find_step-id k p.steps x e)) y

committed_here :
    (ref_of : StepResult → String) (r : StepResult) (x : PlanStep) (steps : List PlanStep)
    → str_eq x.step_id r.step_id ≡ true
    → find_step x.step_id steps
      ≡ some (record x { status = completed; result_ref = some (ref_of r) })
    → is_committed ref_of steps r.step_id r ≡ true
committed_here ref_of r x steps n h =
    let same : r.step_id ≡ x.step_id = sym ((eq_iff x.step_id r.step_id).0 n) in
    let found = ap (λ i. find_step i steps) same ∙ h in
    rw (found, eq_refl r.step_id, eq_refl (ref_of r)) refl

commit_phase : (b : Bool) → is_done (if b then verify else step_prepare) ≡ false
commit_phase true = refl
commit_phase false = refl

recorded_flags :
    (persisted emitted : Bool) (response : String) (phase : RunPhase)
    → (emitted ≡ false → is_done phase ≡ false)
    → final_flags persisted (some response) emitted (is_done (if emitted then done else phase))
      ≡ true
recorded_flags true true response phase h = refl
recorded_flags false true response phase h = refl
recorded_flags true false response phase h = rw (h refl) refl
recorded_flags false false response phase h = rw (h refl) refl

module _ (strip : String → String) (ref_of : StepResult → String) where
  pub fail_current_step-Sound :
      (st : ExecutionState) → Sound strip ref_of st → Sound strip ref_of (fail_current_step st)
  unfolding fail_current_step
  fail_current_step-Sound st s =
      let t =
        rewritten-Sound strip ref_of st s (fail_step st.plan st.current_step_id)
          (fail_step-Rewrites ref_of st.plan s.plan.inv st.current_step_id) in
      record {
        plan = t.plan;
        id = t.id;
        committed = t.committed;
        pending = t.pending;
        final = open_final strip ref_of st s;
        fingerprints = t.fingerprints;
        calls = no_calls strip st.active_tool_calls st.seen_tool_call_ids t.calls;
      }

  -- The result that is set is the current step's.
  set_result-Sound :
      (st : ExecutionState) (r : StepResult) (o : Option PlanStep)
      → step_named st.plan st.current_step_id ≡ o
      → Sound strip ref_of st
      → Sound strip ref_of (set_result st r o).0
  unfolding set_result
  set_result-Sound st r none e s = s
  set_result-Sound st r (some x) e s = elim (Bool-cases (str_eq r.step_id x.step_id)) [
    | inr n ↦ rw n s
    | inl y ↦
        let now : is_pending_for (some r) st.current_step_id ≡ true =
          step_named-is_pending st.plan st.current_step_id x r e y in
        rw y (record {
          plan = s.plan;
          id = s.id;
          committed = s.committed;
          pending = now;
          final = open_final strip ref_of st s;
          fingerprints = s.fingerprints;
          calls = s.calls;
        })
  ]

  pub set_pending_result-Sound :
      (st : ExecutionState) (r : StepResult)
      → Sound strip ref_of st
      → Sound strip ref_of (set_pending_result st r).0
  unfolding set_pending_result current_step
  set_pending_result-Sound st r s = set_result-Sound st r (current_step st) refl s

  after_commit-Sound :
      (st : ExecutionState) (r : StepResult) (o : Result Error Plan)
      → commit st.plan (ref_of r) (some r.step_id) ≡ o
      → Sound strip ref_of st
      → Sound strip ref_of (after_commit st r o).0
  unfolding after_commit
  after_commit-Sound st r (raise e) h s = s
  after_commit-Sound st r (ok q) h s =
      let (x, named, inv, facts) = commit-Inv st.plan q (ref_of r) (some r.step_id) s.plan.inv h in
      let plan = same-PlanSound st.plan q facts.same_version facts.follows.same_graph inv s.plan in
      let found = find_step_unique st.plan.current_index q.steps _ plan.unique facts.written in
      let here : is_committed ref_of q.steps r.step_id r ≡ true =
        committed_here ref_of r x q.steps named found in
      record {
        plan = plan;
        id = current_id-IdSound q;
        committed =
            all_entries-insert (is_committed ref_of q.steps) r.step_id r st.committed_results
              (carried ref_of st.plan.steps q.steps st.committed_results
                (Follows-Retains ref_of st.plan.steps q.steps facts.follows) s.committed)
              here;
        pending = refl;
        final = rw (commit_phase (is_complete q)) (open_final strip ref_of st s);
        fingerprints = refl;
        calls = no_calls strip st.active_tool_calls st.seen_tool_call_ids s.calls;
      }

  commit_of-Sound :
      (st : ExecutionState) (o : Option StepResult)
      → Sound strip ref_of st
      → Sound strip ref_of (commit_of ref_of st o).0
  unfolding commit_of commit_result
  commit_of-Sound st none s = s
  commit_of-Sound st (some r) s =
      after_commit-Sound st r (commit st.plan (ref_of r) (some r.step_id)) refl s

  pub commit_pending-Sound :
      (st : ExecutionState)
      → Sound strip ref_of st
      → Sound strip ref_of (commit_pending ref_of st).0
  unfolding commit_pending
  commit_pending-Sound st s = commit_of-Sound st st.pending_step_result s

  pub begin_finalization-Sound :
      (st : ExecutionState) → Sound strip ref_of st → Sound strip ref_of (begin_finalization st).0
  unfolding begin_finalization
  begin_finalization-Sound st s = elim (Bool-cases (st.final_emitted || is_done st.phase)) [
    | inl d ↦ rw d s
    | inr d ↦ elim (Bool-cases (is_complete st.plan)) [
      | inr c ↦ rw (d, c) s
      | inl c ↦
          rw (d, c)
            (record {
              plan = s.plan;
              id = s.id;
              committed = s.committed;
              pending = s.pending;
              final = open_final strip ref_of st s;
              fingerprints = s.fingerprints;
              calls = s.calls;
            })
    ]
  ]

  pub record_final_response-Sound :
      (st : ExecutionState) (response : String) (persisted emitted : Bool)
      → Sound strip ref_of st
      → Sound strip ref_of (record_final_response st response persisted emitted).0
  unfolding record_final_response
  record_final_response-Sound st response persisted emitted s =
      elim (Bool-cases (st.final_emitted && emitted)) [
        | inl d ↦ rw d s
        | inr d ↦
            let flags : final_flags (st.final_persisted || persisted) (some response)
                  (st.final_emitted || emitted)
                  (is_done (if st.final_emitted || emitted then done else st.phase))
                ≡ true =
              recorded_flags (st.final_persisted || persisted) (st.final_emitted || emitted)
                response st.phase (λ h. let k = s.final in ground arith) in
            rw d (record {
              plan = s.plan;
              id = s.id;
              committed = s.committed;
              pending = s.pending;
              final = flags;
              fingerprints = s.fingerprints;
              calls = s.calls;
            })
      ]
