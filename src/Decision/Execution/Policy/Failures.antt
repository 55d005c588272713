-- ===== src/Decision/Execution/Policy/Failures.antt =====
-- moduagent/decision/planning.py: what `PlanAndExecutePolicy` reads of a response, and what it writes
-- when a step, a result or a Tool call fails: `_repair_tool_call_error` and the writes of
-- `_fallback_tool_failure`.
use Prim.Native.String.{◌++◌ as ◌then_text◌}
use moduagent.Base.{
  ℕ, String, Bool, true, false, not, ◌||◌, Option, none, some, is_some, List, [], ◌∷◌, Result, ok,
  raise, is_empty, codes, strip_prefix, contains, Dict, insert, lookup, get_or, str_eq,
  if◌then◌else◌,
}
use moduagent.Decision.Planning.Steps.{Error}
use moduagent.Decision.Planning.Results.{StepResult, StepValidation}
use moduagent.Decision.Execution.State.{ExecutionState, ActiveCall}
use moduagent.Decision.Execution.Operations.{Outcome, fail_current_step}
use moduagent.Decision.Execution.Calls.{
  ToolCall, CallError, empty_identity, too_long, repeated_id, not_canonical,
}

-- What the code knows of a model response: the finish reason in lower case, the calls, and the decoded
-- result, none where decoding raises.
pub record Response : Type 0 where
  pub finish_reason : String
  pub tool_calls : List ToolCall
  pub decoded : Option StepResult

-- What the step validator answers: a validation with its reason, or an exception's name.
pub data Verdict : Type 0 where
  judged : StepValidation → String → Verdict
  validator_raised : String → Verdict

-- `ToolFailureRecoveryConfig.fallback`
pub data Fallback : Type 0 where
  to_replan to_fail : Fallback

-- What `_tool_call_records` says of an error.
abbrev pub message : CallError → String
message empty_identity = "Tool call ID and name cannot be empty"
message too_long = "Tool call ID or name exceeds the protocol limit"
message repeated_id = "Tool calls must use a new unique call ID"
message not_canonical = "Tool call arguments must be canonical JSON"

abbrev pub is_infix : List ℕ → List ℕ → Bool
is_infix ps [] = is_some (strip_prefix ps [])
is_infix ps (c ∷ cs) = is_some (strip_prefix ps (c ∷ cs)) || is_infix ps cs

-- `str(pending.get(key, ""))`
abbrev pub text_at : String → Dict String → String
text_at key pending = get_or "" (lookup key pending)

abbrev pub or_text : String → String → String
or_text a b = if is_empty a then b else a

-- The feedback of a fallback names its reason.
abbrev pub feedback_of : Dict String → String → String
feedback_of pending reason =
    let feedback = or_text (text_at "feedback" pending) "Tool execution failed" in
    if is_infix (codes reason) (codes feedback)
    then feedback
    else feedback then_text ("; " then_text reason)

unfoldable pub repair_of : Dict String → ToolCall → ActiveCall → Option String
repair_of pending call r =
    if not (str_eq call.name (text_at "tool_name" pending))
    then some "Tool repair must call the same Tool"
    else if str_eq call.id (text_at "call_id" pending)
    then some "Tool repair must use a new call ID"
    else if is_empty (text_at "arguments_fingerprint" pending)
    then some "Tool repair cannot verify the failed call arguments"
    else if str_eq r.arguments_fingerprint (text_at "arguments_fingerprint" pending)
    then some "Tool repair must change the Tool arguments"
    else none

-- `_repair_tool_call_error`
unfoldable pub repair_tool_call_error :
    Dict String → List ToolCall → Dict ActiveCall → Option String
repair_tool_call_error pending (call ∷ []) ((call_id, r) ∷ []) = repair_of pending call r
repair_tool_call_error pending calls records = some "Tool repair must contain exactly one call"

-- `finish_reason in {"timeout", "length", "max_tokens"}`
abbrev pub is_incomplete : String → Bool
is_incomplete reason = contains reason ("timeout" ∷ "length" ∷ "max_tokens" ∷ [])

-- `finish_reason in {"tool_calls", "tool_call"}`
abbrev pub is_call_reason : String → Bool
is_call_reason reason = contains reason ("tool_calls" ∷ "tool_call" ∷ [])

abbrev pub pending_of : Option (Dict String) → Dict String
pending_of none = []
pending_of (some pending) = pending

-- The step fails with a message.
unfoldable pub fail_with : String → ExecutionState → ExecutionState
fail_with text st = record (fail_current_step st) { validation_error = some text }

-- A result that cannot be taken is dropped, and its step fails.
unfoldable pub drop_result : String → ExecutionState → ExecutionState
drop_result text st =
    fail_current_step (record st { pending_step_result = none; validation_error = some text })

-- What a fallback writes first.
unfoldable pub noted : ExecutionState → String → ExecutionState
noted st reason =
    let pending = insert "fallback_reason" reason (pending_of st.pending_tool_failure) in
    record st {
      pending_tool_failure = some pending;
      active_tool_calls = [];
      validation_error = some (feedback_of pending reason);
    }

-- A fallback that ends the run keeps the failure with what ended it.
unfoldable pub terminal_failure : Dict String → String → ExecutionState → ExecutionState
terminal_failure pending reason st = record st {
  failure = some (insert "terminal_reason" reason pending);
  pending_step_result = none;
  awaiting_step_result = false;
}

unfoldable pub after_replan : ExecutionState × Result Error Bool → Outcome
after_replan (st, raise e) = (st, raise e)
after_replan (st, ok fails_run) = (st, ok tt)

unfoldable pub fallback_replan : Dict String → ExecutionState × Result Error Bool → Outcome
fallback_replan pending (st, raise e) = (st, raise e)
fallback_replan pending (st, ok false) = (st, ok tt)
fallback_replan pending (st, ok true) =
    (terminal_failure pending "maximum replans exceeded" st, ok tt)
