-- ===== src/Decision/Execution/Deciding.antt =====
-- moduagent/decision/planning.py: what holds of a state through each write of the policy holds after
-- `decide` and `validate_pending`.
mod Verdicts
pub use Verdicts.*
use moduagent.Base.{
  ℕ, ◌≡◌, refl, String, Bool, true, false, not, Option, none, some, List, [], ◌∷◌, Result, ok,
  raise, Dict, insert, if◌then◌else◌, str_eq,
}
use moduagent.Decision.Planning.Steps.{PlanStep, Error}
use moduagent.Decision.Planning.Results.{
  StepResult, ValidationKind, commits, retries, replans, fails,
}
use moduagent.Decision.Execution.State.{
  ExecutionState, ActiveCall, RunPhase, plans, step_prepare, act, step_validate, verify, finalize,
  done, current_step,
}
use moduagent.Decision.Execution.State as StateCode
use moduagent.Decision.Execution.Operations.{
  Outcome, fail_current_step, set_pending_result, commit_pending,
}
use moduagent.Decision.Execution.Calls.{
  ToolCall, CallError, tool_call_records, activate, retry_invalid_result, retry_validation,
}
use moduagent.Decision.Execution.Replan.{Revision, replan}
use moduagent.Decision.Execution.Policy.{
  Response, Fallback, to_replan, to_fail, Verdict, judged, validator_raised, message, pending_of,
  fail_with, drop_result, noted, terminal_failure, after_replan, fallback_replan,
  fallback_tool_failure, by_kind, rule, validate_in, validate_pending, fallback_or, repair_error_of,
  decide_repair, decide_records, decide_calls, after_set, take_result, decide_result, decide_answer,
  decide_text, by_calls, decide, is_incomplete, is_call_reason,
}

module _ (strip digest : String → String) (fingerprint : String → Option String)
    (ref_of : StepResult → String) (max_step_attempts max_replans : ℕ) (recovery : Option Fallback)
    (Fine : ExecutionState → Type 0)
    (k : Kept strip digest fingerprint ref_of max_step_attempts max_replans Fine) where
  fallback_or-Fine :
      (o : Option (Dict String)) (st : ExecutionState) (reason : String) (revision : Revision)
      (other : ExecutionState)
      → Fine st
      → Fine other
      → Fine
          (fallback_or strip digest fingerprint ref_of max_step_attempts max_replans recovery o st
            reason revision other).0
  unfolding fallback_or
  fallback_or-Fine none st reason revision other t u = u
  fallback_or-Fine (some pending) st reason revision other t u =
      fallback-Fine strip digest fingerprint ref_of max_step_attempts max_replans recovery Fine k
        recovery st reason revision t

  decide_repair-Fine :
      (o : Option String) (st : ExecutionState) (calls : List ToolCall) (records : Dict ActiveCall)
      (revision : Revision)
      → tool_call_records strip fingerprint st calls ≡ ok records
      → Fine st
      → Fine
          (decide_repair strip digest fingerprint ref_of max_step_attempts max_replans recovery o st
            records revision).0
  unfolding decide_repair
  decide_repair-Fine none st calls records revision r t = k.activating st calls records r t
  decide_repair-Fine (some reason) st calls records revision r t =
      fallback-Fine strip digest fingerprint ref_of max_step_attempts max_replans recovery Fine k
        recovery st reason revision t

  decide_records-Fine :
      (st : ExecutionState) (calls : List ToolCall) (o : Result CallError (Dict ActiveCall))
      (revision : Revision)
      → tool_call_records strip fingerprint st calls ≡ o
      → Fine st
      → Fine
          (decide_records strip digest fingerprint ref_of max_step_attempts max_replans recovery st
            calls o revision).0
  unfolding decide_records
  decide_records-Fine st calls (raise e) revision h t =
      fallback_or-Fine st.pending_tool_failure st (message e) revision _ t
        (k.retrying (message e) st t)
  decide_records-Fine st calls (ok records) revision h t =
      decide_repair-Fine
        (repair_error_of strip digest fingerprint ref_of max_step_attempts max_replans recovery
          st.pending_tool_failure calls records)
        st calls records revision h t

  either-Fine : (b : Bool) (x y : Outcome) → Fine x.0 → Fine y.0 → Fine (if b then x else y).0
  either-Fine true x y h k = h
  either-Fine false x y h k = k

  decide_calls-Fine :
      (st : ExecutionState) (calls : List ToolCall) (revision : Revision)
      → Fine st
      → Fine
          (decide_calls strip digest fingerprint ref_of max_step_attempts max_replans recovery st
            calls revision).0
  unfolding decide_calls
  decide_calls-Fine st calls revision t =
      either-Fine st.awaiting_step_result _ _
        (k.failing_with "tools are forbidden during StepResult extraction" st t)
        (decide_records-Fine st calls (tool_call_records strip fingerprint st calls) revision refl
          t)

  after_set-Fine :
      (validator : PlanStep → StepResult → Verdict) (o : Outcome) (revision : Revision)
      → Fine o.0
      → Fine
          (after_set strip digest fingerprint ref_of max_step_attempts max_replans recovery
            validator o revision).0
  unfolding after_set
  after_set-Fine validator (st, raise e) revision t = t
  after_set-Fine validator (st, ok ended) revision t =
      validate_pending-Fine strip digest fingerprint ref_of max_step_attempts max_replans recovery
        Fine k validator st revision t

  take_result-Fine :
      (validator : PlanStep → StepResult → Verdict) (mismatch : String) (st : ExecutionState)
      (r : StepResult) (o : Option PlanStep) (revision : Revision)
      → Fine st
      → Fine
          (take_result strip digest fingerprint ref_of max_step_attempts max_replans recovery
            validator mismatch st r o revision).0
  unfolding take_result
  take_result-Fine validator mismatch st r none revision t =
      k.dropping "pending step validation state is incomplete" st t
  take_result-Fine validator mismatch st r (some s) revision t =
      either-Fine (str_eq r.step_id s.step_id) _ _
        (after_set-Fine validator (set_pending_result st r) revision (k.setting st r t))
        (k.dropping mismatch st t)

  decide_result-Fine :
      (validator : PlanStep → StepResult → Verdict) (mismatch : String) (st : ExecutionState)
      (o : Option StepResult) (revision : Revision)
      → Fine st
      → Fine
          (decide_result strip digest fingerprint ref_of max_step_attempts max_replans recovery
            validator mismatch st o revision).0
  unfolding decide_result
  decide_result-Fine validator mismatch st none revision t =
      k.dropping "StepResult protocol validation failed" st t
  decide_result-Fine validator mismatch st (some r) revision t =
      take_result-Fine validator mismatch st r (current_step st) revision t

  decide_answer-Fine :
      (validator : PlanStep → StepResult → Verdict) (mismatch : String) (st : ExecutionState)
      (response : Response) (revision : Revision)
      → Fine st
      → Fine
          (decide_answer strip digest fingerprint ref_of max_step_attempts max_replans recovery
            validator mismatch st response revision).0
  unfolding decide_answer
  decide_answer-Fine validator mismatch st response revision t =
      either-Fine (not st.awaiting_step_result) _ _ (k.awaiting st _ t) (
        either-Fine (is_call_reason response.finish_reason) _ _ (k.retrying _ st t)
          (decide_result-Fine validator mismatch st response.decoded revision t))

  decide_text-Fine :
      (validator : PlanStep → StepResult → Verdict) (mismatch : String) (o : Option (Dict String))
      (st : ExecutionState) (response : Response) (revision : Revision)
      → Fine st
      → Fine
          (decide_text strip digest fingerprint ref_of max_step_attempts max_replans recovery
            validator mismatch o st response revision).0
  unfolding decide_text
  decide_text-Fine validator mismatch none st response revision t =
      decide_answer-Fine validator mismatch st response revision t
  decide_text-Fine validator mismatch (some pending) st response revision t =
      fallback-Fine strip digest fingerprint ref_of max_step_attempts max_replans recovery Fine k
        recovery st "tool repair response did not call a tool" revision t

  by_calls-Fine :
      (validator : PlanStep → StepResult → Verdict) (mismatch : String) (calls : List ToolCall)
      (st : ExecutionState) (response : Response) (revision : Revision)
      → Fine st
      → Fine
          (by_calls strip digest fingerprint ref_of max_step_attempts max_replans recovery validator
            mismatch calls st response revision).0
  unfolding by_calls
  by_calls-Fine validator mismatch [] st response revision t =
      decide_text-Fine validator mismatch st.pending_tool_failure st response revision t
  by_calls-Fine validator mismatch (c ∷ cs) st response revision t =
      decide_calls-Fine st (c ∷ cs) revision t

  pub decide-Fine :
      (validator : PlanStep → StepResult → Verdict) (mismatch : String) (st : ExecutionState)
      (response : Response) (revision : Revision)
      → Fine st
      → Fine
          (decide strip digest fingerprint ref_of max_step_attempts max_replans recovery validator
            mismatch st response revision).0
  unfolding decide
  decide-Fine validator mismatch st response revision t =
      either-Fine (is_incomplete response.finish_reason) _ _
        (fallback_or-Fine st.pending_tool_failure st _ revision _ t (k.retrying _ st t))
        (by_calls-Fine validator mismatch response.tool_calls st response revision t)
