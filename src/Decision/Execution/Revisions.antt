-- ===== src/Decision/Execution/Revisions.antt =====
-- moduagent/decision/planning.py: the replans of a run, seen in the versions of its plan.
use moduagent.Base.{ℕ, ◌+◌, ◌≤◌, refl, ◌==◌, not, String, Option, List, [], ◌∷◌, arith}
use moduagent.Decision.Planning.Results.{StepResult}
use moduagent.Decision.Planning.Plan.{Plan}
use moduagent.Decision.Planning.Runs.{one_if}
use moduagent.Decision.Execution.State.{ExecutionState}
use moduagent.Decision.Execution.Operations.{
  prepare_current_step, fail_current_step, mark_tool_round_complete, commit_pending,
}
use moduagent.Decision.Execution.Calls.{activate}
use moduagent.Decision.Execution.Policy.{Fallback, fail_with, drop_result, noted, terminal_failure}
use moduagent.Decision.Execution.Deciding.{Kept, decide-Fine, validate_pending-Fine}
use moduagent.Decision.Execution.Sameness.{
  same, mark_in-Same, begin_finalization-Same, activate-Same, retry_invalid-Same,
  retry_validation-Same, set_pending_result-Same, fail_current_step-Same,
}
use moduagent.Decision.Execution.Versions.{
  fail_current_step-Keeps, retry_invalid-Keeps, retry_validation-Keeps, set_pending_result-Keeps,
  commit_pending-Keeps, mark_in-Keeps, begin_finalization-Keeps, record_final_response-Keeps,
  prepare_current_step-Keeps,
}
use moduagent.Decision.Execution.Since.{Since, unrevised, revised_since, still, replan-Since}
use moduagent.Decision.Execution.Replans.{commit_of-replans, responds-replans, run-replan_count}
use moduagent.Decision.Execution.History.{
  Operation, prepares, marks, sets, fails_step, commits_result, finalizes, responds, decides,
  validates, new_state, perform, run,
}

module _ (strip digest : String → String) (fingerprint : String → Option String)
    (ref_of : StepResult → String) (max_step_attempts max_replans : ℕ)
    (recovery : Option Fallback) where
  Since-Kept :
      (first : ExecutionState)
      → Kept strip digest fingerprint ref_of max_step_attempts max_replans (Since first)
  unfolding fail_with drop_result noted terminal_failure activate mark_tool_round_complete
      commit_pending fail_current_step
  Since-Kept first = record {
    failing = λ st h. still _ h (fail_current_step-Same st).replans (fail_current_step-Keeps st);
    failing_with =
        λ text st h. still _ h (fail_current_step-Same st).replans (fail_current_step-Keeps st);
    dropping =
        λ text st h. still _ h (fail_current_step-Same st).replans (fail_current_step-Keeps st);
    noting = λ st reason h. still _ h refl refl;
    ending = λ pending reason st h. still _ h refl refl;
    awaiting = λ st text h. still _ h refl refl;
    setting =
        λ st r h. still _ h (set_pending_result-Same st r).replans (set_pending_result-Keeps st r);
    committing = λ st h.
        still _ h (commit_of-replans ref_of st st.pending_step_result)
          (commit_pending-Keeps ref_of st);
    retrying = λ reason st h.
        still _ h (retry_invalid-Same max_step_attempts reason st).replans
          (retry_invalid-Keeps max_step_attempts reason st);
    revalidating = λ reason st h.
        still _ h (retry_validation-Same max_step_attempts reason st).replans
          (retry_validation-Keeps max_step_attempts reason st);
    replanning = λ st feedback revision h.
        replan-Since strip digest first max_replans st feedback revision h;
    activating = λ st calls records c h.
        still _ h (activate-Same st records).replans (mark_in-Keeps st.phase _);
  }

  perform-Since :
      (st : ExecutionState) (o : Operation)
      → Since st
          (perform strip digest fingerprint ref_of max_step_attempts max_replans recovery st o)
  unfolding perform prepare_current_step mark_tool_round_complete commit_pending
  perform-Since st (prepares has_tools) = unrevised (prepare_current_step-Keeps st has_tools) refl
  perform-Since st marks =
      unrevised (mark_in-Keeps st.phase st) (mark_in-Same st.phase st st (same st)).replans
  perform-Since st (sets r) =
      unrevised (set_pending_result-Keeps st r) (set_pending_result-Same st r).replans
  perform-Since st fails_step =
      unrevised (fail_current_step-Keeps st) (fail_current_step-Same st).replans
  perform-Since st commits_result =
      unrevised (commit_pending-Keeps ref_of st)
        (commit_of-replans ref_of st st.pending_step_result)
  perform-Since st finalizes =
      unrevised (begin_finalization-Keeps st) (begin_finalization-Same st).replans
  perform-Since st (responds response persisted emitted) =
      unrevised (record_final_response-Keeps st response persisted emitted)
        (responds-replans st response persisted emitted)
  perform-Since st (decides validator mismatch response revision) =
      decide-Fine strip digest fingerprint ref_of max_step_attempts max_replans recovery _
        (Since-Kept st) validator mismatch st response revision (unrevised refl refl)
  perform-Since st (validates validator revision) =
      validate_pending-Fine strip digest fingerprint ref_of max_step_attempts max_replans recovery _
        (Since-Kept st) validator st revision (unrevised refl refl)

  -- How many of the operations change the version of the plan.
  unfoldable pub revision_count : ExecutionState → List Operation → ℕ
  revision_count st [] = 0
  revision_count st (o ∷ os) =
      let next =
        perform strip digest fingerprint ref_of max_step_attempts max_replans recovery st o in
      let rest = revision_count next os in
      one_if (not (next.plan.version == st.plan.version)) + rest

  -- The states of a run, and the revisions among its operations.
  record Tallied (first last : ExecutionState) (revisions : ℕ) : Type 0 where
    seen : first.replan_count + revisions ≤ last.replan_count
    raised : first.plan.version + last.replan_count ≤ last.plan.version + first.replan_count

  one_more :
      (first next last : ExecutionState) (revisions : ℕ)
      → Since first next
      → Tallied next last revisions
      → Tallied first last (one_if (not (next.plan.version == first.plan.version)) + revisions)
  one_more first next last revisions (unrevised v n) t = record {
    seen = ground (arith, t.seen);
    raised = omega (arith, v, n, t.raised);
  }
  one_more first next last revisions (revised_since n v) t = record {
    seen = ground (arith, t.seen);
    raised = omega (arith, v, n, t.raised);
  }

  run-Tallied :
      (st : ExecutionState) (os : List Operation)
      → Tallied st
          (run strip digest fingerprint ref_of max_step_attempts max_replans recovery st os)
          (revision_count st os)
  unfolding run revision_count
  run-Tallied st [] = record { seen = omega arith; raised = omega arith }
  run-Tallied st (o ∷ os) =
      let next =
        perform strip digest fingerprint ref_of max_step_attempts max_replans recovery st o in
      one_more st next _ (revision_count next os) (perform-Since st o) (run-Tallied next os)

  -- From the first state of a plan, any calls of its methods, of `decide` and of `validate_pending` change
  -- the version of the plan in no more calls than the policy's limit of replans: the state counts each
  -- of them as a replan, and its count stays within the limit. Each replan that is counted raises the
  -- version.
  pub run-revision_count :
      (p : Plan) (os : List Operation)
      → let last =
          run strip digest fingerprint ref_of max_step_attempts max_replans recovery
            (new_state p)
            os in
        (revision_count (new_state p) os ≤ last.replan_count)
        × (last.replan_count ≤ max_replans)
        × (p.version + last.replan_count ≤ last.plan.version)
  unfolding new_state
  run-revision_count p os =
      let t = run-Tallied (new_state p) os in
      (
        omega (arith, t.seen),
        run-replan_count strip digest fingerprint ref_of max_step_attempts max_replans recovery p
            os,
        omega (arith, t.raised),
      )
