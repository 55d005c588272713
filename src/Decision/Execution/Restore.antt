-- ===== src/Decision/Execution/Restore.antt =====
-- moduagent/decision/planning.py: the state after any history passes the checks of a restored state.
use moduagent.Base.{ℕ, ◌≡◌, refl, sym, subst, ◌∙◌, String, true, Option, some, List, [], ◌∷◌, ok}
use moduagent.Decision.Planning.Results.{StepResult}
use moduagent.Decision.Planning.Plan.{Plan, move_to_next_open_step}
use moduagent.Decision.Planning.Plan as PlanCode
use moduagent.Decision.Planning.Evolution.{closed_before}
use moduagent.Decision.Planning.Acceptance.{is_accepted, post_init_lem}
use moduagent.Decision.Planning.Outcome.{accepted_cases}
use moduagent.Decision.Execution.State.{ExecutionState}
use moduagent.Decision.Execution.Checks.{is_tool_argument_fingerprint, post_init}
use moduagent.Decision.Execution.Replan.{reread}
use moduagent.Decision.Execution.Policy.{Fallback}
use moduagent.Decision.Execution.Normality.{AllNormal}
use moduagent.Decision.Execution.Soundness.{
  PlanSound, PlanSound-post_init, current_id-IdSound, Sound, Sound-post_init,
}
use moduagent.Decision.Execution.Start.{accepted-PlanSound}
use moduagent.Decision.Execution.Merging.{reread-AllNormal, reread_normal}
use moduagent.Decision.Execution.ReplanSoundness.{fail_current_step-Settled}
use moduagent.Decision.Execution.PolicySoundness.{
  IsSettled, prepare-Settled, mark-Settled, set-Settled, commit-Settled, finalize-Settled,
  respond-Settled,
}
use moduagent.Decision.Execution.Deciding.{decide-Fine, validate_pending-Fine}
use moduagent.Decision.Execution.Handling.{IsSettled-kept}
use moduagent.Decision.Execution.History.{
  Operation, prepares, marks, sets, fails_step, commits_result, finalizes, responds, decides,
  validates, new_state, perform, run,
}

pub new_state-Sound :
    (strip : String → String) (ref_of : StepResult → String) (p : Plan)
    → PlanSound p
    → Sound strip ref_of (new_state p)
unfolding new_state
new_state-Sound strip ref_of p s = record {
  plan = s;
  id = current_id-IdSound p;
  committed = refl;
  pending = refl;
  final = refl;
  fingerprints = refl;
  calls = record {
    normal = refl;
    unique = refl;
    stripped = refl;
    nonempty = refl;
    seen_unique = refl;
    listed = refl;
  };
}

module _ (strip digest : String → String) (fingerprint : String → Option String)
    (ref_of : StepResult → String) (max_step_attempts max_replans : ℕ) (recovery : Option Fallback)
    (strip_again : (s : String) → strip (strip s) ≡ strip s)
    (is_canonical : (a f : String)
      → fingerprint a ≡ some f
      → (is_tool_argument_fingerprint f ≡ true) × (strip f ≡ f)) where
  pub perform-Settled :
      (st : ExecutionState) (o : Operation)
      → IsSettled strip digest strip_again ref_of st
      → IsSettled strip digest strip_again ref_of
          (perform strip digest fingerprint ref_of max_step_attempts max_replans recovery st o)
  unfolding perform
  perform-Settled st (prepares has_tools) t =
      prepare-Settled strip digest strip_again ref_of st has_tools t
  perform-Settled st marks t = mark-Settled strip digest strip_again ref_of st t
  perform-Settled st (sets r) t = set-Settled strip digest strip_again ref_of st r t
  perform-Settled st fails_step t = fail_current_step-Settled strip digest strip_again ref_of st t
  perform-Settled st commits_result t = commit-Settled strip digest strip_again ref_of st t
  perform-Settled st finalizes t = finalize-Settled strip digest strip_again ref_of st t
  perform-Settled st (responds response persisted emitted) t =
      respond-Settled strip digest strip_again ref_of st response persisted emitted t
  perform-Settled st (decides validator mismatch response revision) t =
      decide-Fine strip digest fingerprint ref_of max_step_attempts max_replans recovery _
        (IsSettled-kept strip digest fingerprint ref_of max_step_attempts max_replans strip_again
          is_canonical)
        validator mismatch st response revision t
  perform-Settled st (validates validator revision) t =
      validate_pending-Fine strip digest fingerprint ref_of max_step_attempts max_replans recovery _
        (IsSettled-kept strip digest fingerprint ref_of max_step_attempts max_replans strip_again
          is_canonical)
        validator st revision t

  pub run-Settled :
      (st : ExecutionState) (os : List Operation)
      → IsSettled strip digest strip_again ref_of st
      → IsSettled strip digest strip_again ref_of
          (run strip digest fingerprint ref_of max_step_attempts max_replans recovery st os)
  unfolding run
  run-Settled st [] t = t
  run-Settled st (o ∷ os) t =
      run-Settled
        (perform strip digest fingerprint ref_of max_step_attempts max_replans recovery st o) os
        (perform-Settled st o t)

  pub begun-Settled :
      (raw p : Plan)
      → reread strip digest raw.steps ≡ ok raw.steps
      → closed_before raw.current_index raw.steps ≡ true
      → PlanCode.post_init raw ≡ ok p
      → IsSettled strip digest strip_again ref_of (new_state p)
  unfolding new_state move_to_next_open_step
  begun-Settled raw p n c h =
      let moved =
        (accepted_cases (is_accepted raw) (move_to_next_open_step raw) p
          (sym (post_init_lem raw) ∙ h)).1 in
      record {
        sound = new_state-Sound strip ref_of p (accepted-PlanSound raw p c h);
        normal =
            subst (λ q. AllNormal strip digest q.steps) (sym moved)
              (reread-AllNormal strip digest strip_again raw.steps raw.steps n);
      }

  -- A plan is accepted, its steps are as their checks leave them, and the steps before its current one
  -- are completed or skipped. Its first state goes through any calls of its methods, of `decide` and of
  -- `validate_pending`, those that raise included. Then the checks of restored steps, of a restored plan
  -- and of a restored state accept what they are given and leave it as it is, so that a checkpoint
  -- taken at any point can be read back. Stripping a text twice is stripping it once, and a fingerprint
  -- is stripped and has the form that the checks ask for.
  pub run-post_init :
      (raw p : Plan) (os : List Operation)
      → reread strip digest raw.steps ≡ ok raw.steps
      → closed_before raw.current_index raw.steps ≡ true
      → PlanCode.post_init raw ≡ ok p
      → let st =
          run strip digest fingerprint ref_of max_step_attempts max_replans recovery
            (new_state p)
            os in
        (reread strip digest st.plan.steps ≡ ok st.plan.steps)
        × (PlanCode.post_init st.plan ≡ ok st.plan)
        × (post_init strip ref_of st ≡ ok st)
  run-post_init raw p os n c h =
      let t = run-Settled (new_state p) os (begun-Settled raw p n c h) in
      (
        reread_normal strip digest strip_again _ t.normal,
        PlanSound-post_init _ t.sound.plan,
        Sound-post_init strip ref_of _ t.sound,
      )
