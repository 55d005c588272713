-- ===== src/Decision/Execution/PolicySoundness.antt =====
-- moduagent/decision/planning.py: the policy's handling of a response keeps a state settled.
use moduagent.Base.{
  ℕ, ◌+◌, ◌≡◌, refl, sym, subst, String, Bool, true, ◌&&◌, ◌||◌, Option, none, some, Result, ok,
  raise, leb, Dict, Bool-cases, inl, inr, str_eq,
}
use moduagent.Decision.Planning.Steps.{PlanStep, Error}
use moduagent.Decision.Planning.Results.{StepResult}
use moduagent.Decision.Planning.Plan.{Plan, is_complete}
use moduagent.Decision.Planning.Moves.{commit, commit_result}
use moduagent.Decision.Execution.State.{
  ExecutionState, ActiveCall, RunPhase, plans, step_prepare, act, step_validate, verify, finalize,
  done, current_step,
}
use moduagent.Decision.Execution.State as StateCode
use moduagent.Decision.Execution.Checks.{is_done}
use moduagent.Decision.Execution.Operations.{
  fail_current_step, prepare_current_step, mark_tool_round_complete, mark_in, set_pending_result,
  set_result, commit_pending, commit_of, after_commit, begin_finalization, record_final_response,
}
use moduagent.Decision.Execution.Calls.{
  activate, retry_of, retry_invalid_result, retry_validation, count_attempt,
}
use moduagent.Decision.Execution.CallFacts.{Records}
use moduagent.Decision.Execution.Normality.{
  AllNormal, start_current-AllNormal, commit-AllNormal, fail_step-AllNormal,
  count_attempt-AllNormal,
}
use moduagent.Decision.Execution.Soundness.{Sound}
use moduagent.Decision.Execution.Preservation.{
  prepare_current_step-Sound, mark_tool_round_complete-Sound, set_pending_result-Sound,
  commit_pending-Sound, begin_finalization-Sound, record_final_response-Sound,
}
use moduagent.Decision.Execution.CallSoundness.{
  activate-Sound, retry_invalid_result-Sound, retry_validation-Sound,
}
use moduagent.Decision.Execution.ReplanSoundness.{Settled}

module _ (strip digest : String → String) (strip_again : (s : String) → strip (strip s) ≡ strip s)
    (ref_of : StepResult → String) where
  abbrev pub IsSettled : ExecutionState → Type 0
  IsSettled st = Settled strip digest ref_of st

  same_plan :
      (st now : ExecutionState)
      → now.plan ≡ st.plan
      → Sound strip ref_of now
      → IsSettled st
      → IsSettled now
  same_plan st now e s t = record {
    sound = s;
    normal = subst (λ p. AllNormal strip digest p.steps) (sym e) t.normal;
  }

  pub prepare-Settled :
      (st : ExecutionState) (has_tools : Bool)
      → IsSettled st
      → IsSettled (prepare_current_step st has_tools)
  unfolding prepare_current_step
  prepare-Settled st has_tools t = record {
    sound = prepare_current_step-Sound strip ref_of st t.sound has_tools;
    normal = start_current-AllNormal strip digest st.plan t.normal;
  }

  mark_in-plan : (phase : RunPhase) (st : ExecutionState) → (mark_in phase st).0.plan ≡ st.plan
  unfolding mark_in
  mark_in-plan act st = refl
  mark_in-plan plans st = refl
  mark_in-plan step_prepare st = refl
  mark_in-plan step_validate st = refl
  mark_in-plan verify st = refl
  mark_in-plan finalize st = refl
  mark_in-plan done st = refl
  mark_in-plan StateCode.fails st = refl

  pub mark-Settled :
      (st : ExecutionState) → IsSettled st → IsSettled (mark_tool_round_complete st).0
  unfolding mark_tool_round_complete
  mark-Settled st t =
      same_plan st _ (mark_in-plan st.phase st)
        (mark_tool_round_complete-Sound strip ref_of st t.sound) t

  set_result-plan :
      (st : ExecutionState) (r : StepResult) (o : Option PlanStep)
      → (set_result st r o).0.plan ≡ st.plan
  unfolding set_result
  set_result-plan st r none = refl
  set_result-plan st r (some x) = elim (Bool-cases (str_eq r.step_id x.step_id)) [
    | inl y ↦ rw y refl
    | inr n ↦ rw n refl
  ]

  pub set-Settled :
      (st : ExecutionState) (r : StepResult) → IsSettled st → IsSettled (set_pending_result st r).0
  unfolding set_pending_result
  set-Settled st r t =
      same_plan st _ (set_result-plan st r (current_step st))
        (set_pending_result-Sound strip ref_of st r t.sound) t

  after_commit-AllNormal :
      (st : ExecutionState) (r : StepResult) (o : Result Error Plan)
      → commit st.plan (ref_of r) (some r.step_id) ≡ o
      → AllNormal strip digest st.plan.steps
      → AllNormal strip digest (after_commit st r o).0.plan.steps
  unfolding after_commit
  after_commit-AllNormal st r (raise e) h n = n
  after_commit-AllNormal st r (ok q) h n =
      commit-AllNormal strip digest st.plan q (ref_of r) (some r.step_id) n h

  commit_of-AllNormal :
      (st : ExecutionState) (o : Option StepResult)
      → AllNormal strip digest st.plan.steps
      → AllNormal strip digest (commit_of ref_of st o).0.plan.steps
  unfolding commit_of commit_result
  commit_of-AllNormal st none n = n
  commit_of-AllNormal st (some r) n =
      after_commit-AllNormal st r (commit st.plan (ref_of r) (some r.step_id)) refl n

  pub commit-Settled : (st : ExecutionState) → IsSettled st → IsSettled (commit_pending ref_of st).0
  unfolding commit_pending
  commit-Settled st t = record {
    sound = commit_pending-Sound strip ref_of st t.sound;
    normal = commit_of-AllNormal st st.pending_step_result t.normal;
  }

  begin_finalization-plan : (st : ExecutionState) → (begin_finalization st).0.plan ≡ st.plan
  unfolding begin_finalization
  begin_finalization-plan st = elim (Bool-cases (st.final_emitted || is_done st.phase)) [
    | inl d ↦ rw d refl
    | inr d ↦ elim (Bool-cases (is_complete st.plan)) [
      | inr c ↦ rw (d, c) refl
      | inl c ↦ rw (d, c) refl
    ]
  ]

  pub finalize-Settled : (st : ExecutionState) → IsSettled st → IsSettled (begin_finalization st).0
  finalize-Settled st t =
      same_plan st _ (begin_finalization-plan st) (begin_finalization-Sound strip ref_of st t.sound)
        t

  record-plan :
      (st : ExecutionState) (response : String) (persisted emitted : Bool)
      → (record_final_response st response persisted emitted).0.plan ≡ st.plan
  unfolding record_final_response
  record-plan st response persisted emitted = elim (Bool-cases (st.final_emitted && emitted)) [
    | inl d ↦ rw d refl
    | inr d ↦ rw d refl
  ]

  pub respond-Settled :
      (st : ExecutionState) (response : String) (persisted emitted : Bool)
      → IsSettled st
      → IsSettled (record_final_response st response persisted emitted).0
  respond-Settled st response persisted emitted t =
      same_plan st _ (record-plan st response persisted emitted)
        (record_final_response-Sound strip ref_of st response persisted emitted t.sound) t

  pub activate-Settled :
      (st : ExecutionState) (records : Dict ActiveCall)
      → Records strip st.seen_tool_call_ids records
      → IsSettled st
      → IsSettled (activate st records).0
  unfolding activate mark_tool_round_complete
  activate-Settled st records r t =
      same_plan st _ (mark_in-plan st.phase _) (activate-Sound strip ref_of st records t.sound r) t

  retry_of-AllNormal :
      (n : ℕ) (reason : String) (awaiting : Bool) (st : ExecutionState) (o : Option PlanStep)
      → AllNormal strip digest st.plan.steps
      → AllNormal strip digest (retry_of n reason awaiting st o).plan.steps
  unfolding retry_of fail_current_step
  retry_of-AllNormal n reason awaiting st none m =
      fail_step-AllNormal strip digest st.plan st.current_step_id m
  retry_of-AllNormal n reason awaiting st (some x) m =
      let counted = count_attempt-AllNormal strip digest st.plan st.current_step_id m in
      elim (Bool-cases (leb n (x.attempt_count + 1))) [
        | inl e ↦ rw e (
            fail_step-AllNormal strip digest (count_attempt st.plan st.current_step_id)
              st.current_step_id counted)
        | inr e ↦ rw e counted
      ]

  pub retry_invalid-Settled :
      (n : ℕ) (reason : String) (st : ExecutionState)
      → IsSettled st
      → IsSettled (retry_invalid_result n reason st)
  unfolding retry_invalid_result
  retry_invalid-Settled n reason st t = record {
    sound = retry_invalid_result-Sound strip ref_of n reason st t.sound;
    normal = retry_of-AllNormal n reason st.awaiting_step_result st (current_step st) t.normal;
  }

  pub retry_validation-Settled :
      (n : ℕ) (reason : String) (st : ExecutionState)
      → IsSettled st
      → IsSettled (retry_validation n reason st)
  unfolding retry_validation
  retry_validation-Settled n reason st t = record {
    sound = retry_validation-Sound strip ref_of n reason st t.sound;
    normal = retry_of-AllNormal n reason true st (current_step st) t.normal;
  }
