-- ===== src/Decision/Execution/Policy.antt =====
-- moduagent/decision/planning.py: `decide`, `validate_pending` and `_fallback_tool_failure` of
-- `PlanAndExecutePolicy`, as far as they change the state or raise. What the step validator and the
-- plan generator answer are arguments, and so is the result that a response decodes to.
mod Failures
unfoldable pub use Failures.*
use Prim.Native.String.{◌++◌ as ◌then_text◌}
use moduagent.Base.{
  ℕ, String, Bool, true, false, not, ◌||◌, Option, none, some, is_some, List, [], ◌∷◌, Result, ok,
  raise, is_empty, codes, strip_prefix, contains, Dict, insert, lookup, get_or, str_eq,
  if◌then◌else◌,
}
use moduagent.Decision.Planning.Steps.{PlanStep, Error, runtime_error}
use moduagent.Decision.Planning.Results.{
  StepResult, StepValidation, ValidationKind, commits, retries, replans, fails,
}
use moduagent.Decision.Execution.State.{
  ExecutionState, ActiveCall, RunPhase, step_validate, current_step,
}
use moduagent.Decision.Execution.Operations.{
  Outcome, fail_current_step, set_pending_result, commit_pending,
}
use moduagent.Decision.Execution.Calls.{
  ToolCall, CallError, tool_call_records, activate, retry_invalid_result, retry_validation,
  empty_identity, too_long, repeated_id, not_canonical,
}
use moduagent.Decision.Execution.Replan.{Revision, replan}

module _ (strip digest : String → String) (fingerprint : String → Option String)
    (ref_of : StepResult → String) (max_step_attempts max_replans : ℕ)
    (recovery : Option Fallback) where
  -- `_fallback_tool_failure`
  unfoldable pub fallback_tool_failure :
      Option Fallback → ExecutionState → String → Revision → Outcome
  fallback_tool_failure none st reason revision = (st, raise runtime_error)
  fallback_tool_failure (some to_replan) st reason revision =
      let pending = insert "fallback_reason" reason (pending_of st.pending_tool_failure) in
      fallback_replan pending
        (replan strip digest max_replans (noted st reason) (feedback_of pending reason) revision)
  fallback_tool_failure (some to_fail) st reason revision =
      let pending = insert "fallback_reason" reason (pending_of st.pending_tool_failure) in
      (fail_current_step (terminal_failure pending reason (noted st reason)), ok tt)

  unfoldable pub by_kind : ValidationKind → ExecutionState → String → Revision → Outcome
  by_kind commits st reason revision = commit_pending ref_of st
  by_kind retries st reason revision = (retry_validation max_step_attempts reason st, ok tt)
  by_kind replans st reason revision =
      after_replan (replan strip digest max_replans st reason revision)
  by_kind fails st reason revision = (fail_with reason st, ok tt)

  unfoldable pub rule : Verdict → ExecutionState → Revision → Outcome
  rule (validator_raised name) st revision =
      (fail_with ("step validator failed (" then_text (name then_text ")")) st, ok tt)
  rule (judged v reason) st revision = by_kind v.kind st reason revision

  unfoldable pub validate_in :
      RunPhase
      → Option StepResult
      → Option PlanStep
      → (PlanStep → StepResult → Verdict)
      → ExecutionState
      → Revision
      → Outcome
  validate_in step_validate (some r) (some s) validator st revision =
      rule (validator s r) st revision
  validate_in phase r s validator st revision =
      (fail_with "pending step validation state is incomplete" st, ok tt)

  -- `validate_pending`
  unfoldable pub validate_pending :
      (PlanStep → StepResult → Verdict) → ExecutionState → Revision → Outcome
  validate_pending validator st revision =
      validate_in st.phase st.pending_step_result (current_step st) validator st revision

  -- A failure is to be repaired: the response does not do it.
  unfoldable pub fallback_or :
      Option (Dict String) → ExecutionState → String → Revision → ExecutionState → Outcome
  fallback_or none st reason revision other = (other, ok tt)
  fallback_or (some pending) st reason revision other =
      fallback_tool_failure recovery st reason revision

  unfoldable pub repair_error_of :
      Option (Dict String) → List ToolCall → Dict ActiveCall → Option String
  repair_error_of none calls records = none
  repair_error_of (some pending) calls records = repair_tool_call_error pending calls records

  unfoldable pub decide_repair :
      Option String → ExecutionState → Dict ActiveCall → Revision → Outcome
  decide_repair none st records revision = activate st records
  decide_repair (some reason) st records revision =
      fallback_tool_failure recovery st reason revision

  unfoldable pub decide_records :
      ExecutionState → List ToolCall → Result CallError (Dict ActiveCall) → Revision → Outcome
  decide_records st calls (raise e) revision =
      fallback_or st.pending_tool_failure st (message e) revision
        (retry_invalid_result max_step_attempts (message e) st)
  decide_records st calls (ok records) revision =
      decide_repair (repair_error_of st.pending_tool_failure calls records) st records revision

  -- `decide`, with Tool calls.
  unfoldable pub decide_calls : ExecutionState → List ToolCall → Revision → Outcome
  decide_calls st calls revision =
      if st.awaiting_step_result
      then (fail_with "tools are forbidden during StepResult extraction" st, ok tt)
      else decide_records st calls (tool_call_records strip fingerprint st calls) revision

  unfoldable pub after_set : (PlanStep → StepResult → Verdict) → Outcome → Revision → Outcome
  after_set validator (st, raise e) revision = (st, raise e)
  after_set validator (st, ok done) revision = validate_pending validator st revision

  unfoldable pub take_result :
      (PlanStep → StepResult → Verdict)
      → String
      → ExecutionState
      → StepResult
      → Option PlanStep
      → Revision
      → Outcome
  take_result validator mismatch st r none revision =
      (drop_result "pending step validation state is incomplete" st, ok tt)
  take_result validator mismatch st r (some s) revision =
      if str_eq r.step_id s.step_id
      then after_set validator (set_pending_result st r) revision
      else (drop_result mismatch st, ok tt)

  -- `decide`, with a response that is to be the result of the step.
  unfoldable pub decide_result :
      (PlanStep → StepResult → Verdict)
      → String
      → ExecutionState
      → Option StepResult
      → Revision
      → Outcome
  decide_result validator mismatch st none revision =
      (drop_result "StepResult protocol validation failed" st, ok tt)
  decide_result validator mismatch st (some r) revision =
      take_result validator mismatch st r (current_step st) revision

  -- `decide`, without a failure to repair.
  unfoldable pub decide_answer :
      (PlanStep → StepResult → Verdict) → String → ExecutionState → Response → Revision → Outcome
  decide_answer validator mismatch st response revision =
      if not st.awaiting_step_result
      then (
        record st {
          awaiting_step_result = true;
          validation_error = some "a schema-only StepResult turn is required";
        },
        ok tt,
      )
      else if is_call_reason response.finish_reason
      then (
        retry_invalid_result max_step_attempts
            "model reported tool calls without providing a tool call" st,
        ok tt,
      )
      else decide_result validator mismatch st response.decoded revision

  unfoldable pub decide_text :
      (PlanStep → StepResult → Verdict)
      → String
      → Option (Dict String)
      → ExecutionState
      → Response
      → Revision
      → Outcome
  decide_text validator mismatch none st response revision =
      decide_answer validator mismatch st response revision
  decide_text validator mismatch (some pending) st response revision =
      fallback_tool_failure recovery st "tool repair response did not call a tool" revision

  unfoldable pub by_calls :
      (PlanStep → StepResult → Verdict)
      → String
      → List ToolCall
      → ExecutionState
      → Response
      → Revision
      → Outcome
  by_calls validator mismatch [] st response revision =
      decide_text validator mismatch st.pending_tool_failure st response revision
  by_calls validator mismatch (c ∷ cs) st response revision = decide_calls st (c ∷ cs) revision

  -- `decide`. `mismatch` is the message that a result is of another step.
  unfoldable pub decide :
      (PlanStep → StepResult → Verdict) → String → ExecutionState → Response → Revision → Outcome
  decide validator mismatch st response revision =
      if is_incomplete response.finish_reason
      then fallback_or st.pending_tool_failure st
          ("incomplete tool repair response (" then_text (response.finish_reason then_text ")"))
          revision
          (retry_invalid_result max_step_attempts
            ("incomplete StepResult response (" then_text (response.finish_reason then_text ")"))
            st)
      else by_calls validator mismatch response.tool_calls st response revision
