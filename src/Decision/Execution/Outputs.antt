-- ===== src/Decision/Execution/Outputs.antt =====
-- moduagent/decision/planning.py: the final output of a run.
use moduagent.Base.{
  ℕ, ◌+◌, ◌≤◌, ◌≡◌, refl, ◌∙◌, String, Bool, true, false, ◌&&◌, ◌||◌, Option, none, some, List, [],
  ◌∷◌, Result, ok, raise, arith, if◌then◌else◌,
}
use moduagent.Decision.Planning.Steps.{Error, runtime_error}
use moduagent.Decision.Planning.Results.{StepResult}
use moduagent.Decision.Planning.Plan.{Plan}
use moduagent.Decision.Planning.Moves.{commit_result}
use moduagent.Decision.Planning.Runs.{one_if}
use moduagent.Decision.Execution.State.{ExecutionState}
use moduagent.Decision.Execution.Operations.{
  Outcome, prepare_current_step, mark_tool_round_complete, commit_pending, commit_of, after_commit,
  record_final_response,
}
use moduagent.Decision.Execution.Policy.{Fallback}
use moduagent.Decision.Execution.Deciding.{Kept, decide-Fine, validate_pending-Fine}
use moduagent.Decision.Execution.Sameness.{
  same, mark_in-Same, begin_finalization-Same, activate-Same, retry_invalid-Same,
  retry_validation-Same, set_pending_result-Same, fail_current_step-Same, fail_with-Same,
  drop_result-Same, noted-Same, terminal-Same, awaiting-Same, replan-SameOutputs,
}
use moduagent.Decision.Execution.History.{
  Operation, prepares, marks, sets, fails_step, commits_result, finalizes, responds, decides,
  validates, new_state, perform, run, emits, is_ok, emission_count,
}

one_if-le : (b : Bool) → one_if b ≤ 1
one_if-le true = omega arith
one_if-le false = omega arith

module _ (strip digest : String → String) (fingerprint : String → Option String)
    (ref_of : StepResult → String) (max_step_attempts max_replans : ℕ)
    (recovery : Option Fallback) where
  after : ExecutionState → Operation → ExecutionState
  after = perform strip digest fingerprint ref_of max_step_attempts max_replans recovery

  after_commit-emitted :
      (st : ExecutionState) (r : StepResult) (o : Result Error Plan)
      → (after_commit st r o).0.final_emitted ≡ st.final_emitted
  unfolding after_commit
  after_commit-emitted st r (raise e) = refl
  after_commit-emitted st r (ok q) = refl

  commit_of-emitted :
      (st : ExecutionState) (o : Option StepResult)
      → (commit_of ref_of st o).0.final_emitted ≡ st.final_emitted
  unfolding commit_of
  commit_of-emitted st none = refl
  commit_of-emitted st (some r) =
      after_commit-emitted st r (commit_result ref_of st.plan r (some r.step_id))

  keeps_flag : (a b : Bool) → a ≡ b → one_if a ≡ one_if false + one_if b
  keeps_flag a b h = rw h (ground arith)

  flag_kept :
      (flag : Bool)
      → Kept strip digest fingerprint ref_of max_step_attempts max_replans
          (λ st. st.final_emitted ≡ flag)
  unfolding commit_pending
  flag_kept flag = record {
    failing = λ st h. (fail_current_step-Same st).emitted ∙ h;
    failing_with = λ text st h. (fail_with-Same text st).emitted ∙ h;
    dropping = λ text st h. (drop_result-Same text st).emitted ∙ h;
    noting = λ st reason h. (noted-Same st reason).emitted ∙ h;
    ending = λ pending reason st h. (terminal-Same pending reason st).emitted ∙ h;
    awaiting = λ st text h. (awaiting-Same st text).emitted ∙ h;
    setting = λ st r h. (set_pending_result-Same st r).emitted ∙ h;
    committing = λ st h. commit_of-emitted st st.pending_step_result ∙ h;
    retrying = λ reason st h. (retry_invalid-Same max_step_attempts reason st).emitted ∙ h;
    revalidating = λ reason st h. (retry_validation-Same max_step_attempts reason st).emitted ∙ h;
    replanning = λ st feedback revision h.
        (replan-SameOutputs strip digest max_replans st feedback revision).emitted ∙ h;
    activating = λ st calls records c h. (activate-Same st records).emitted ∙ h;
  }

  chosen :
      (flag emitted : Bool) (st now : ExecutionState)
      → st.final_emitted ≡ flag
      → now.final_emitted ≡ (flag || emitted)
      → let o : Outcome = if flag && emitted then (st, raise runtime_error) else (now, ok tt) in
        one_if o.0.final_emitted ≡ one_if (emitted && is_ok o.1) + one_if flag
  chosen true true st now h k = rw h (ground arith)
  chosen true false st now h k = rw k (ground arith)
  chosen false true st now h k = rw k (ground arith)
  chosen false false st now h k = rw k (ground arith)

  responds-emitted :
      (st : ExecutionState) (response : String) (persisted emitted : Bool)
      → one_if (record_final_response st response persisted emitted).0.final_emitted
        ≡ one_if (emitted && is_ok (record_final_response st response persisted emitted).1)
          + one_if st.final_emitted
  unfolding record_final_response
  responds-emitted st response persisted emitted = chosen st.final_emitted emitted st _ refl refl

  perform-emitted :
      (st : ExecutionState) (o : Operation)
      → one_if (after st o).final_emitted ≡ one_if (emits st o) + one_if st.final_emitted
  unfolding after perform emits prepare_current_step mark_tool_round_complete commit_pending
  perform-emitted st (prepares has_tools) = keeps_flag _ _ refl
  perform-emitted st marks = keeps_flag _ _ (mark_in-Same st.phase st st (same st)).emitted
  perform-emitted st (sets r) = keeps_flag _ _ (set_pending_result-Same st r).emitted
  perform-emitted st fails_step = keeps_flag _ _ (fail_current_step-Same st).emitted
  perform-emitted st commits_result = keeps_flag _ _ (commit_of-emitted st st.pending_step_result)
  perform-emitted st finalizes = keeps_flag _ _ (begin_finalization-Same st).emitted
  perform-emitted st (responds response persisted emitted) =
      responds-emitted st response persisted emitted
  perform-emitted st (decides validator mismatch response revision) = keeps_flag _ _ (
      decide-Fine strip digest fingerprint ref_of max_step_attempts max_replans recovery _
        (flag_kept st.final_emitted) validator mismatch st response revision refl)
  perform-emitted st (validates validator revision) = keeps_flag _ _ (
      validate_pending-Fine strip digest fingerprint ref_of max_step_attempts max_replans recovery _
        (flag_kept st.final_emitted) validator st revision refl)

  run-emitted :
      (st : ExecutionState) (os : List Operation)
      → one_if
          (run strip digest fingerprint ref_of max_step_attempts max_replans recovery st
            os).final_emitted
        ≡ emission_count strip digest fingerprint ref_of max_step_attempts max_replans recovery st
            os
          + one_if st.final_emitted
  unfolding run emission_count after
  run-emitted st [] = ground arith
  run-emitted st (o ∷ os) =
      let here = perform-emitted st o in let rest = run-emitted (after st o) os in omega arith

  -- From the first state of a plan, any calls of its methods, of `decide` and of `validate_pending` emit
  -- the final output at most once, and the final flag tells how often they did.
  pub run-emission_count :
      (p : Plan) (os : List Operation)
      → (emission_count strip digest fingerprint ref_of max_step_attempts max_replans recovery
            (new_state p)
            os
          ≤ 1)
        × (emission_count strip digest fingerprint ref_of max_step_attempts max_replans recovery
              (new_state p)
              os
            ≡ one_if
                (run strip digest fingerprint ref_of max_step_attempts max_replans recovery
                  (new_state p)
                  os).final_emitted)
  unfolding new_state
  run-emission_count p os =
      let h = run-emitted (new_state p) os in
      let now =
        (run strip digest fingerprint ref_of max_step_attempts max_replans recovery (new_state p)
          os).final_emitted in
      let small : one_if now ≤ 1 = one_if-le now in (omega arith, omega arith)
