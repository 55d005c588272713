-- ===== src/Decision/Execution/ReplanSoundness.antt =====
-- moduagent/decision/planning.py: a replan keeps a sound state sound.
use moduagent.Base.{
  ℕ, ◌+◌, max, ◌≡◌, refl, sym, ap, subst, ◌∙◌, String, Bool, true, false, Option, none, some, List,
  ◌++◌, map, Result, ok, raise, >>=-ok-inv, get_elem?, contains, length, leb, Dict, keys,
  all_entries, arith, Bool-cases, inl, inr,
}
use moduagent.Decision.Planning.Steps.{PlanStep, Error}
use moduagent.Decision.Planning.Results.{StepResult}
use moduagent.Decision.Planning.Plan.{Plan, is_closed, move_to_next_open_step}
use moduagent.Decision.Planning.Plan as PlanCode
use moduagent.Decision.Planning.Acceptance.{is_accepted, post_init_lem}
use moduagent.Decision.Planning.Outcome.{accepted_cases}
use moduagent.Decision.Execution.State.{ExecutionState, find_step}
use moduagent.Decision.Execution.Checks.{is_committed, is_committed_as}
use moduagent.Decision.Execution.Operations.{Outcome, fail_current_step}
use moduagent.Decision.Execution.Replan.{
  Revision, revised, tripped, failed_revision, is_stored, stored_steps, other_steps,
  with_attempts_of, reread, merge, adopt, adopt_if_made, after_failed_revision, apply_replan,
  after_apply, replan, noted_failure,
}
use moduagent.Decision.Execution.Steps.{find_step_unique, completed_closed}
use moduagent.Decision.Execution.Normality.{AllNormal, fail_step-AllNormal}
use moduagent.Decision.Execution.Soundness.{current_id-IdSound, Sound}
use moduagent.Decision.Execution.Preservation.{fail_current_step-Sound, open_final, no_calls}
use moduagent.Decision.Execution.Start.{accepted-PlanSound}
use moduagent.Decision.Execution.Merging.{
  reread_normal, reread-AllNormal, stored-AllNormal, attempts-AllNormal, append-AllNormal, entry_of,
  entries_by, find_step-stored, closed_before-stored,
}

-- A state that the checks leave as it is, with steps that they leave as they are.
pub record Settled (strip digest : String → String) (ref_of : StepResult → String)
    (st : ExecutionState) : Type 0 where
  pub sound : Sound strip ref_of st
  pub normal : AllNormal strip digest st.plan.steps

stored_closed :
    (strip : String → String) (ref_of : StepResult → String) (st : ExecutionState)
    → Sound strip ref_of st
    → (n : ℕ) (s : PlanStep) → get_elem? st.plan.steps n ≡ some s
    → is_stored st.committed_results s ≡ true
    → is_closed s.status ≡ true
stored_closed strip ref_of st sound n s g m =
    let (r, h) =
      entry_of (is_committed ref_of st.plan.steps) s.step_id st.committed_results sound.committed
        m in
    let found = find_step_unique n st.plan.steps s sound.plan.unique g in
    let as_stored : is_committed_as ref_of r (some s) ≡ true =
      ap (is_committed_as ref_of r) (sym found) ∙ ground (arith, h) in
    completed_closed s.status (ground (arith, as_stored))

same_list :
    (xs ys : List PlanStep) (r : Result Error (List PlanStep)) → r ≡ ok xs → r ≡ ok ys → xs ≡ ys
same_list xs ys (ok zs) e f = cc
same_list xs ys (raise x) e f = cc

carried_in :
    (ref_of : StepResult → String) (results : Dict StepResult) (ss more : List PlanStep)
    (k : String) (r : StepResult)
    → contains k (keys results) ≡ true
    → is_committed ref_of ss k r ≡ true
    → is_committed ref_of (stored_steps results ss ++ more) k r ≡ true
carried_in ref_of results ss more k r m h = from (find_step k ss) refl
  where
    from :
        (o : Option PlanStep)
        → find_step k ss ≡ o
        → is_committed ref_of (stored_steps results ss ++ more) k r ≡ true
    from none e = let g = ap (is_committed_as ref_of r) e in ground (arith, h, g)
    from (some s) e =
        let there = find_step-stored results k ss more s m e in
        let same = ap (is_committed_as ref_of r) (there ∙ sym e) in ground (arith, h, same)

module _ (strip digest : String → String) (strip_again : (s : String) → strip (strip s) ≡ strip s)
    (ref_of : StepResult → String) where
  -- The committed steps, with others after them, as a plan.
  merged-Settled :
      (st : ExecutionState) (feedback : String) (more : List PlanStep) (version : ℕ) (merged : Plan)
      → Settled strip digest ref_of st
      → AllNormal strip digest more
      → PlanCode.post_init (record {
        steps = stored_steps st.committed_results st.plan.steps ++ more;
        current_index = length (stored_steps st.committed_results st.plan.steps);
        version = version;
      })
        ≡ ok merged
      → Settled strip digest ref_of (adopt st feedback merged)
  unfolding adopt move_to_next_open_step
  merged-Settled st feedback more version merged t m h =
      let results = st.committed_results in
      let stored = stored_steps results st.plan.steps in
      let raw : Plan = record {
        steps = stored ++ more;
        current_index = length stored;
        version = version;
      } in
      let behind =
        closed_before-stored results st.plan.steps more (stored_closed strip ref_of st t.sound) in
      let plan = accepted-PlanSound raw merged behind h in
      let moved =
        (accepted_cases (is_accepted raw) (move_to_next_open_step raw) merged
          (sym (post_init_lem raw) ∙ h)).1 in
      let steps : merged.steps ≡ stored ++ more = ap (λ p. p.steps) moved in
      let kept =
        entries_by (is_committed ref_of st.plan.steps) (is_committed ref_of (stored ++ more))
          results (λ k r c g. carried_in ref_of results st.plan.steps more k r c g)
          t.sound.committed in
      let normal =
        append-AllNormal strip digest strip_again stored more
          (stored-AllNormal strip digest strip_again results st.plan.steps t.normal) m in
      record {
        sound = record {
          plan = plan;
          id = current_id-IdSound merged;
          committed =
              subst (λ ss. all_entries (is_committed ref_of ss) results ≡ true) (sym steps) kept;
          pending = refl;
          final = open_final strip ref_of st t.sound;
          fingerprints = refl;
          calls = no_calls strip st.active_tool_calls st.seen_tool_call_ids t.sound.calls;
        };
        normal = subst (AllNormal strip digest) (sym steps) normal;
      }

  adopt-Settled :
      (st : ExecutionState) (feedback : String) (revision merged : Plan)
      → Settled strip digest ref_of st
      → merge strip digest st revision ≡ ok merged
      → Settled strip digest ref_of (adopt st feedback merged)
  unfolding merge
  adopt-Settled st feedback revision merged t h =
      let results = st.committed_results in
      let stored = stored_steps results st.plan.steps in
      let stored_normal =
        stored-AllNormal strip digest strip_again results st.plan.steps t.normal in
      let again = reread_normal strip digest strip_again stored stored_normal in
      let (committed, ec, h1) = >>=-ok-inv (reread strip digest stored) _ h in
      let (opened, eo, h2) =
        >>=-ok-inv (reread strip digest (other_steps results revision.steps)) _ h1 in
      let same : stored ≡ committed =
        same_list stored committed (reread strip digest stored) again ec in
      let previous = other_steps results st.plan.steps in
      let more = map (λ s. with_attempts_of (find_step s.step_id previous) s) opened in
      merged-Settled st feedback more (max st.plan.version revision.version + 1) merged t
        (attempts-AllNormal strip digest strip_again (λ id. find_step id previous) opened
          (reread-AllNormal strip digest strip_again (other_steps results revision.steps) opened
            eo))
        (subst
          (λ c.
            PlanCode.post_init (record {
              steps = c ++ more;
              current_index = length c;
              version = max st.plan.version revision.version + 1;
            })
            ≡ ok merged)
          (sym same) h2)

  -- The notes of a state, and the pending result dropped.
  pub with_notes :
      (st : ExecutionState) (error : Option String) (failure : Option (Dict String))
      (awaiting : Bool)
      → Settled strip digest ref_of st
      → Settled strip digest ref_of (record st {
        validation_error = error;
        failure = failure;
        awaiting_step_result = awaiting;
      })
  with_notes st error failure awaiting t = record {
    sound = record {
      plan = t.sound.plan;
      id = t.sound.id;
      committed = t.sound.committed;
      pending = t.sound.pending;
      final = t.sound.final;
      fingerprints = t.sound.fingerprints;
      calls = t.sound.calls;
    };
    normal = t.normal;
  }

  pub without_result :
      (st : ExecutionState)
      → Settled strip digest ref_of st
      → Settled strip digest ref_of (record st { pending_step_result = none })
  without_result st t = record {
    sound = record {
      plan = t.sound.plan;
      id = t.sound.id;
      committed = t.sound.committed;
      pending = refl;
      final = t.sound.final;
      fingerprints = t.sound.fingerprints;
      calls = t.sound.calls;
    };
    normal = t.normal;
  }

  pub fail_current_step-Settled :
      (st : ExecutionState)
      → Settled strip digest ref_of st
      → Settled strip digest ref_of (fail_current_step st)
  unfolding fail_current_step
  fail_current_step-Settled st t = record {
    sound = fail_current_step-Sound strip ref_of st t.sound;
    normal = fail_step-AllNormal strip digest st.plan st.current_step_id t.normal;
  }

  after_failed_revision-Settled :
      (st : ExecutionState)
      → Settled strip digest ref_of st
      → Settled strip digest ref_of (after_failed_revision st)
  unfolding after_failed_revision
  after_failed_revision-Settled st t =
      let noted = record st { failure = noted_failure st.pending_tool_failure st.failure } in
      let failed_now = fail_current_step-Settled noted (
        with_notes st st.validation_error (noted_failure st.pending_tool_failure st.failure)
          st.awaiting_step_result t) in
      without_result _ (
        with_notes (fail_current_step noted) (some "plan revision failed")
          (fail_current_step noted).failure false failed_now)

  adopt_if_made-Settled :
      (st : ExecutionState) (feedback : String) (revision : Plan) (o : Result Error Plan)
      → merge strip digest st revision ≡ o
      → Settled strip digest ref_of st
      → Settled strip digest ref_of (adopt_if_made st feedback o).0
  unfolding adopt_if_made
  adopt_if_made-Settled st feedback revision (raise e) h t = t
  adopt_if_made-Settled st feedback revision (ok merged) h t =
      adopt-Settled st feedback revision merged t h

  apply_replan-Settled :
      (st : ExecutionState) (feedback : String) (revision : Revision)
      → Settled strip digest ref_of st
      → Settled strip digest ref_of (apply_replan strip digest st feedback revision).0
  unfolding apply_replan
  apply_replan-Settled st feedback tripped t = t
  apply_replan-Settled st feedback failed_revision t = after_failed_revision-Settled st t
  apply_replan-Settled st feedback (revised revision) t =
      adopt_if_made-Settled st feedback revision (merge strip digest st revision) refl t

  after_apply-state : (o : Outcome) → (after_apply strip digest o).0 ≡ o.0
  unfolding after_apply
  after_apply-state (st, ok done) = refl
  after_apply-state (st, raise e) = refl

  pub replan-Settled :
      (max_replans : ℕ) (st : ExecutionState) (feedback : String) (revision : Revision)
      → Settled strip digest ref_of st
      → Settled strip digest ref_of (replan strip digest max_replans st feedback revision).0
  unfolding replan
  replan-Settled max_replans st feedback revision t =
      elim (Bool-cases (leb max_replans st.replan_count)) [
        | inl e ↦ rw e (
            with_notes (fail_current_step st) (some "maximum replans exceeded")
              (fail_current_step st).failure (fail_current_step st).awaiting_step_result
              (fail_current_step-Settled st t))
        | inr e ↦
            rw (e, after_apply-state (apply_replan strip digest st feedback revision))
              (apply_replan-Settled st feedback revision t)
      ]
