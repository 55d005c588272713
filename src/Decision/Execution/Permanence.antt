-- ===== src/Decision/Execution/Permanence.antt =====
-- moduagent/decision/planning.py: a committed result stays.
use moduagent.Base.{
  ℕ, ◌≡◌, refl, sym, ap, ◌∙◌, String, Bool, true, false, ◌&&◌, Option, none, some, List, [], ◌∷◌,
  Result, ok, raise, Dict, lookup, lookup-insert, Bool-cases, inl, inr, arith, str_eq, eq_iff,
  all_entries-lookup,
}
use moduagent.Decision.Planning.Steps.{
  PlanStepStatus, pending, in_progress, completed, blocked, failed, skipped, Error,
}
use moduagent.Decision.Planning.Results.{StepResult}
use moduagent.Decision.Planning.Plan.{Plan, current, is_complete}
use moduagent.Decision.Planning.Plan as PlanCode
use moduagent.Decision.Planning.Evolution.{closed_before}
use moduagent.Decision.Planning.Moves.{commit, commit_result, is_committable, is_completed}
use moduagent.Decision.Planning.Runs.{commit-Inv}
use moduagent.Decision.Execution.State.{ExecutionState, find_step}
use moduagent.Decision.Execution.Checks.{
  is_tool_argument_fingerprint, is_committed, is_committed_as,
}
use moduagent.Decision.Execution.Operations.{
  prepare_current_step, mark_tool_round_complete, commit_pending, commit_of, after_commit,
  record_final_response,
}
use moduagent.Decision.Execution.Replan.{reread}
use moduagent.Decision.Execution.Policy.{Fallback}
use moduagent.Decision.Execution.PolicySoundness.{IsSettled}
use moduagent.Decision.Execution.Deciding.{Kept, decide-Fine, validate_pending-Fine}
use moduagent.Decision.Execution.Handling.{IsSettled-kept}
use moduagent.Decision.Execution.Restore.{perform-Settled, run-Settled, begun-Settled}
use moduagent.Decision.Execution.Sameness.{
  same, mark_in-Same, begin_finalization-Same, activate-Same, retry_invalid-Same,
  retry_validation-Same, set_pending_result-Same, fail_current_step-Same, fail_with-Same,
  drop_result-Same, noted-Same, terminal-Same, awaiting-Same, replan-SameOutputs,
}
use moduagent.Decision.Execution.History.{
  Operation, prepares, marks, sets, fails_step, commits_result, finalizes, responds, decides,
  validates, new_state, perform, run,
}
use moduagent.Decision.Execution.Steps.{find_step_unique}
use moduagent.Decision.Execution.Soundness.{Sound}

-- A step that can be committed is not completed.
not_completed :
    (status : PlanStepStatus) → is_committable status ≡ true → is_completed status ≡ false
not_completed pending h = refl
not_completed in_progress h = refl
not_completed completed h = cc
not_completed blocked h = cc
not_completed failed h = cc
not_completed skipped h = cc

kept_by :
    {d e : Dict StepResult}
    → (k : String) (r : StepResult) → e ≡ d
    → lookup k d ≡ some r
    → lookup k e ≡ some r
kept_by k r same h = ap (lookup k) same ∙ h

module _ (strip : String → String) (ref_of : StepResult → String) where
  -- A commit stores its result under a new key.
  new_key :
      (st : ExecutionState) (q : Plan) (r old : StepResult) (k : String)
      → Sound strip ref_of st
      → commit st.plan (ref_of r) (some r.step_id) ≡ ok q
      → lookup k st.committed_results ≡ some old
      → str_eq r.step_id k ≡ false
  unfolding current
  new_key st q r old k s h l = elim (Bool-cases (str_eq r.step_id k)) [
    | inr n ↦ n
    | inl y ↦
        let (x, named, _, facts) = commit-Inv st.plan q (ref_of r) (some r.step_id) s.plan.inv h in
        let same_id : x.step_id ≡ k =
          (eq_iff x.step_id r.step_id).0 named ∙ (eq_iff r.step_id k).0 y in
        let found : find_step k st.plan.steps ≡ some x =
          ap (λ i. find_step i st.plan.steps) (sym same_id)
          ∙ find_step_unique st.plan.current_index st.plan.steps x s.plan.unique
              facts.was_current in
        let stored =
          all_entries-lookup (is_committed ref_of st.plan.steps) k old st.committed_results
            s.committed l in
        let done : is_committed_as ref_of old (some x) ≡ true =
          ap (is_committed_as ref_of old) (sym found) ∙ ground (arith, stored) in
        let open_still = not_completed x.status facts.was_committable in
        ground (arith, done, open_still)
  ]

  after_commit-lookup :
      (st : ExecutionState) (r old : StepResult) (k : String) (o : Result Error Plan)
      → commit st.plan (ref_of r) (some r.step_id) ≡ o
      → Sound strip ref_of st
      → lookup k st.committed_results ≡ some old
      → lookup k (after_commit st r o).0.committed_results ≡ some old
  unfolding after_commit
  after_commit-lookup st r old k (raise e) h s l = l
  after_commit-lookup st r old k (ok q) h s l =
      let fresh = new_key st q r old k s h l in
      lookup-insert r.step_id k r st.committed_results ∙ rw fresh l

  commit_of-lookup :
      (st : ExecutionState) (old : StepResult) (k : String) (o : Option StepResult)
      → Sound strip ref_of st
      → lookup k st.committed_results ≡ some old
      → lookup k (commit_of ref_of st o).0.committed_results ≡ some old
  unfolding commit_of commit_result
  commit_of-lookup st old k none s l = l
  commit_of-lookup st old k (some r) s l =
      after_commit-lookup st r old k (commit st.plan (ref_of r) (some r.step_id)) refl s l

responds-results :
    (st : ExecutionState) (response : String) (persisted emitted : Bool)
    → (record_final_response st response persisted emitted).0.committed_results
      ≡ st.committed_results
unfolding record_final_response
responds-results st response persisted emitted = elim (Bool-cases (st.final_emitted && emitted)) [
  | inl d ↦ rw d refl
  | inr d ↦ rw d refl
]

module _ (strip digest : String → String) (fingerprint : String → Option String)
    (ref_of : StepResult → String) (max_step_attempts max_replans : ℕ) (recovery : Option Fallback)
    (strip_again : (s : String) → strip (strip s) ≡ strip s)
    (is_canonical : (a f : String)
      → fingerprint a ≡ some f
      → (is_tool_argument_fingerprint f ≡ true) × (strip f ≡ f)) where
  -- A settled state that holds a committed result.
  Holds : String → StepResult → ExecutionState → Type 0
  Holds k old st =
      IsSettled strip digest strip_again ref_of st × (lookup k st.committed_results ≡ some old)

  settled :
      Kept strip digest fingerprint ref_of max_step_attempts max_replans
        (IsSettled strip digest strip_again ref_of)
  settled =
      IsSettled-kept strip digest fingerprint ref_of max_step_attempts max_replans strip_again
        is_canonical

  Holds-kept :
      (k : String) (old : StepResult)
      → Kept strip digest fingerprint ref_of max_step_attempts max_replans (Holds k old)
  unfolding Holds commit_pending
  Holds-kept k old = record {
    failing =
        λ st t. (settled.failing st t.0, kept_by k old (fail_current_step-Same st).results t.1);
    failing_with = λ text st t.
        (settled.failing_with text st t.0, kept_by k old (fail_with-Same text st).results t.1);
    dropping = λ text st t.
        (settled.dropping text st t.0, kept_by k old (drop_result-Same text st).results t.1);
    noting = λ st reason t.
        (settled.noting st reason t.0, kept_by k old (noted-Same st reason).results t.1);
    ending = λ pending reason st t. (
      settled.ending pending reason st t.0,
      kept_by k old (terminal-Same pending reason st).results t.1,
    );
    awaiting = λ st text t.
        (settled.awaiting st text t.0, kept_by k old (awaiting-Same st text).results t.1);
    setting = λ st r t.
        (settled.setting st r t.0, kept_by k old (set_pending_result-Same st r).results t.1);
    retrying = λ reason st t. (
      settled.retrying reason st t.0,
      kept_by k old (retry_invalid-Same max_step_attempts reason st).results t.1,
    );
    revalidating = λ reason st t. (
      settled.revalidating reason st t.0,
      kept_by k old (retry_validation-Same max_step_attempts reason st).results t.1,
    );
    replanning = λ st feedback revision t. (
      settled.replanning st feedback revision t.0,
      kept_by k old (replan-SameOutputs strip digest max_replans st feedback revision).results t.1,
    );
    committing = λ st t. (
      settled.committing st t.0,
      commit_of-lookup strip ref_of st old k st.pending_step_result t.0.sound t.1,
    );
    activating = λ st calls records c t. (
      settled.activating st calls records c t.0,
      kept_by k old (activate-Same st records).results t.1,
    );
  }

  perform-lookup :
      (st : ExecutionState) (o : Operation) (old : StepResult) (k : String)
      → IsSettled strip digest strip_again ref_of st
      → lookup k st.committed_results ≡ some old
      → lookup k
          (perform strip digest fingerprint ref_of max_step_attempts max_replans recovery st
            o).committed_results
        ≡ some old
  unfolding perform prepare_current_step mark_tool_round_complete commit_pending Holds
  perform-lookup st (prepares has_tools) old k s l = l
  perform-lookup st marks old k s l =
      kept_by k old (mark_in-Same st.phase st st (same st)).results l
  perform-lookup st (sets r) old k s l = kept_by k old (set_pending_result-Same st r).results l
  perform-lookup st fails_step old k s l = kept_by k old (fail_current_step-Same st).results l
  perform-lookup st commits_result old k s l =
      commit_of-lookup strip ref_of st old k st.pending_step_result s.sound l
  perform-lookup st finalizes old k s l = kept_by k old (begin_finalization-Same st).results l
  perform-lookup st (responds response persisted emitted) old k s l =
      kept_by k old (responds-results st response persisted emitted) l
  perform-lookup st (decides validator mismatch response revision) old k s l =
      (decide-Fine strip digest fingerprint ref_of max_step_attempts max_replans recovery _
        (Holds-kept k old) validator mismatch st response revision (s, l)).1
  perform-lookup st (validates validator revision) old k s l =
      (validate_pending-Fine strip digest fingerprint ref_of max_step_attempts max_replans recovery
        _ (Holds-kept k old) validator st revision (s, l)).1

  run-lookup :
      (st : ExecutionState) (os : List Operation) (old : StepResult) (k : String)
      → IsSettled strip digest strip_again ref_of st
      → lookup k st.committed_results ≡ some old
      → lookup k
          (run strip digest fingerprint ref_of max_step_attempts max_replans recovery st
            os).committed_results
        ≡ some old
  unfolding run
  run-lookup st [] old k s l = l
  run-lookup st (o ∷ os) old k s l =
      run-lookup
        (perform strip digest fingerprint ref_of max_step_attempts max_replans recovery st o) os old
        k
        (perform-Settled strip digest fingerprint ref_of max_step_attempts max_replans recovery
          strip_again is_canonical st o s)
        (perform-lookup st o old k s l)

  -- A plan is accepted, its steps are as their checks leave them, and the steps before its current one
  -- are completed or skipped. Its first state goes through any calls of its methods, of `decide` and of
  -- `validate_pending`. A result that is then committed is the same after any further calls, replans
  -- included. Stripping a text twice is stripping it once, and a fingerprint is stripped and has the
  -- form that the checks ask for.
  pub run-keeps_committed :
      (raw p : Plan) (os later : List Operation) (r : StepResult) (k : String)
      → reread strip digest raw.steps ≡ ok raw.steps
      → closed_before raw.current_index raw.steps ≡ true
      → PlanCode.post_init raw ≡ ok p
      → lookup k
          (run strip digest fingerprint ref_of max_step_attempts max_replans recovery
            (new_state p)
            os).committed_results
        ≡ some r
      → lookup k
          (run strip digest fingerprint ref_of max_step_attempts max_replans recovery
            (run strip digest fingerprint ref_of max_step_attempts max_replans recovery
              (new_state p)
              os)
            later).committed_results
        ≡ some r
  run-keeps_committed raw p os later r k n c h l =
      run-lookup _ later r k
        (run-Settled strip digest fingerprint ref_of max_step_attempts max_replans recovery
          strip_again is_canonical (new_state p) os
          (begun-Settled strip digest fingerprint ref_of max_step_attempts max_replans recovery
            strip_again is_canonical raw p n c h))
        l
