-- ===== src/Decision/Execution/Replans.antt =====
-- moduagent/decision/planning.py: the number of replans of a run.
use moduagent.Base.{
  ℕ, ◌≤◌, ◌≡◌, refl, ◌&&◌, String, Bool, false, Option, none, some, List, [], ◌∷◌, Result, ok,
  raise, leb, arith, Bool-cases, inl, inr,
}
use moduagent.Decision.Planning.Steps.{Error}
use moduagent.Decision.Planning.Results.{StepResult}
use moduagent.Decision.Planning.Plan.{Plan}
use moduagent.Decision.Planning.Moves.{commit_result}
use moduagent.Decision.Execution.State.{ExecutionState}
use moduagent.Decision.Execution.Operations.{
  Outcome, fail_current_step, prepare_current_step, mark_tool_round_complete, commit_pending,
  commit_of, after_commit, record_final_response,
}
use moduagent.Decision.Execution.Replan.{
  Revision, revised, tripped, failed_revision, merge, adopt, adopt_if_made, after_failed_revision,
  apply_replan, after_apply, replan,
}
use moduagent.Decision.Execution.Policy.{Fallback}
use moduagent.Decision.Execution.Deciding.{Kept, decide-Fine, validate_pending-Fine}
use moduagent.Decision.Execution.Sameness.{
  same, mark_in-Same, begin_finalization-Same, activate-Same, retry_invalid-Same,
  retry_validation-Same, set_pending_result-Same, fail_current_step-Same, fail_with-Same,
  drop_result-Same, noted-Same, terminal-Same, awaiting-Same,
}
use moduagent.Decision.Execution.History.{
  Operation, prepares, marks, sets, fails_step, commits_result, finalizes, responds, decides,
  validates, new_state, perform, run,
}

within : {a b n : ℕ} → a ≡ b → b ≤ n → a ≤ n
within e h = omega arith

adopt_if_made_le :
    (n : ℕ) (st : ExecutionState) (feedback : String) (o : Result Error Plan)
    → leb n st.replan_count ≡ false
    → st.replan_count ≤ n
    → (adopt_if_made st feedback o).0.replan_count ≤ n
unfolding adopt_if_made adopt
adopt_if_made_le n st feedback (raise e) l h = h
adopt_if_made_le n st feedback (ok merged) l h = ground arith

module _ (strip digest : String → String) where
  apply_replan_le :
      (n : ℕ) (st : ExecutionState) (feedback : String) (revision : Revision)
      → leb n st.replan_count ≡ false
      → st.replan_count ≤ n
      → (apply_replan strip digest st feedback revision).0.replan_count ≤ n
  unfolding apply_replan after_failed_revision fail_current_step
  apply_replan_le n st feedback tripped l h = h
  apply_replan_le n st feedback failed_revision l h = h
  apply_replan_le n st feedback (revised revision) l h =
      adopt_if_made_le n st feedback (merge strip digest st revision) l h

  after_apply_le :
      (n : ℕ) (o : Outcome) → o.0.replan_count ≤ n → (after_apply strip digest o).0.replan_count ≤ n
  unfolding after_apply
  after_apply_le n (st, ok ended) h = h
  after_apply_le n (st, raise e) h = h

  replan_le :
      (n : ℕ) (st : ExecutionState) (feedback : String) (revision : Revision)
      → st.replan_count ≤ n
      → (replan strip digest n st feedback revision).0.replan_count ≤ n
  unfolding replan fail_current_step
  replan_le n st feedback revision h = elim (Bool-cases (leb n st.replan_count)) [
    | inl e ↦ rw e h
    | inr e ↦ rw e (
        after_apply_le n (apply_replan strip digest st feedback revision)
          (apply_replan_le n st feedback revision e h))
  ]

module _ (ref_of : StepResult → String) where
  after_commit-replans :
      (st : ExecutionState) (r : StepResult) (o : Result Error Plan)
      → (after_commit st r o).0.replan_count ≡ st.replan_count
  unfolding after_commit
  after_commit-replans st r (raise e) = refl
  after_commit-replans st r (ok q) = refl

  pub commit_of-replans :
      (st : ExecutionState) (o : Option StepResult)
      → (commit_of ref_of st o).0.replan_count ≡ st.replan_count
  unfolding commit_of
  commit_of-replans st none = refl
  commit_of-replans st (some r) =
      after_commit-replans st r (commit_result ref_of st.plan r (some r.step_id))

pub responds-replans :
    (st : ExecutionState) (response : String) (persisted emitted : Bool)
    → (record_final_response st response persisted emitted).0.replan_count ≡ st.replan_count
unfolding record_final_response
responds-replans st response persisted emitted = elim (Bool-cases (st.final_emitted && emitted)) [
  | inl d ↦ rw d refl
  | inr d ↦ rw d refl
]

module _ (strip digest : String → String) (fingerprint : String → Option String)
    (ref_of : StepResult → String) (max_step_attempts max_replans : ℕ)
    (recovery : Option Fallback) where
  bound_kept :
      Kept strip digest fingerprint ref_of max_step_attempts max_replans
        (λ st. st.replan_count ≤ max_replans)
  unfolding commit_pending
  bound_kept = record {
    failing = λ st h. within (fail_current_step-Same st).replans h;
    failing_with = λ text st h. within (fail_with-Same text st).replans h;
    dropping = λ text st h. within (drop_result-Same text st).replans h;
    noting = λ st reason h. within (noted-Same st reason).replans h;
    ending = λ pending reason st h. within (terminal-Same pending reason st).replans h;
    awaiting = λ st text h. within (awaiting-Same st text).replans h;
    setting = λ st r h. within (set_pending_result-Same st r).replans h;
    committing = λ st h. within (commit_of-replans ref_of st st.pending_step_result) h;
    retrying = λ reason st h. within (retry_invalid-Same max_step_attempts reason st).replans h;
    revalidating =
        λ reason st h. within (retry_validation-Same max_step_attempts reason st).replans h;
    replanning =
        λ st feedback revision h. replan_le strip digest max_replans st feedback revision h;
    activating = λ st calls records c h. within (activate-Same st records).replans h;
  }

  perform_le :
      (st : ExecutionState) (o : Operation)
      → st.replan_count ≤ max_replans
      → (perform strip digest fingerprint ref_of max_step_attempts max_replans recovery st
          o).replan_count
        ≤ max_replans
  unfolding perform prepare_current_step mark_tool_round_complete commit_pending
  perform_le st (prepares has_tools) h = h
  perform_le st marks h = within (mark_in-Same st.phase st st (same st)).replans h
  perform_le st (sets r) h = within (set_pending_result-Same st r).replans h
  perform_le st fails_step h = within (fail_current_step-Same st).replans h
  perform_le st commits_result h = within (commit_of-replans ref_of st st.pending_step_result) h
  perform_le st finalizes h = within (begin_finalization-Same st).replans h
  perform_le st (responds response persisted emitted) h =
      within (responds-replans st response persisted emitted) h
  perform_le st (decides validator mismatch response revision) h =
      decide-Fine strip digest fingerprint ref_of max_step_attempts max_replans recovery _
        bound_kept validator mismatch st response revision h
  perform_le st (validates validator revision) h =
      validate_pending-Fine strip digest fingerprint ref_of max_step_attempts max_replans recovery _
        bound_kept validator st revision h

  run_le :
      (st : ExecutionState) (os : List Operation)
      → st.replan_count ≤ max_replans
      → (run strip digest fingerprint ref_of max_step_attempts max_replans recovery st
          os).replan_count
        ≤ max_replans
  unfolding run
  run_le st [] h = h
  run_le st (o ∷ os) h =
      run_le (perform strip digest fingerprint ref_of max_step_attempts max_replans recovery st o)
        os (perform_le st o h)

  -- From the first state of a plan, any calls of its methods, of `decide` and of `validate_pending` replan
  -- no more often than the policy's limit.
  pub run-replan_count :
      (p : Plan) (os : List Operation)
      → (run strip digest fingerprint ref_of max_step_attempts max_replans recovery
          (new_state p)
          os).replan_count
        ≤ max_replans
  unfolding new_state
  run-replan_count p os = run_le (new_state p) os (omega arith)
