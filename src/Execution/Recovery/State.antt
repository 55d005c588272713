-- ===== src/Execution/Recovery/State.antt =====
-- moduagent/execution/planning: `ToolRecoveryState` of state.py and `record_requested_calls` of
-- recovery.py. `V` is the type of the safe views that the failure projector makes. Identifiers have
-- no white space around them, so `strip` does nothing.
use moduagent.Base.{
  keys, ℕ, String, Bool, ◌||◌, Option, none, is_some, List, [], ◌∷◌, ◌++◌, Result, ok, raise, ◌>>=◌,
  contains, Dict, lookup, insert, if◌then◌else◌,
}

-- A requested call, with the fingerprint of its arguments.
pub record ToolCall : Type 0 where
  pub id : String
  pub name : String
  pub arguments_fingerprint : String

pub record ActiveCall : Type 0 where
  pub tool_name : String
  pub arguments_fingerprint : String

pub record PendingFailure (V : Type 0) : Type 0 where
  pub failure : V
  pub step_id : String
  pub repair_safe : Bool

pub data Reason : Type 0 where
  completed partial_success requires_failure requires_replanning : Reason
  multiple_failures retry_exhausted no_recovery_action repair_not_enabled : Reason
  not_repair_safe budget_exhausted unverified_invocation missing_fingerprints : Reason
  repair_failed_call : Reason

pub record TerminalFailure (V : Type 0) : Type 0 where
  pub failure : V
  pub terminal_reason : Reason

pub record ToolRecoveryState (V : Type 0) : Type 0 where
  pub active_calls : Dict ActiveCall
  pub seen_call_ids : List String
  pub pending_failure : Option (PendingFailure V)
  pub repair_count_by_step : Dict ℕ
  pub total_repairs : ℕ
  pub terminal_failure : Option (TerminalFailure V)

-- `ToolRecoveryState()`
abbrev pub new_state : {V : Type 0} → ToolRecoveryState V
new_state = record {
  active_calls = [];
  seen_call_ids = [];
  pending_failure = none;
  repair_count_by_step = [];
  total_repairs = 0;
  terminal_failure = none;
}

pub data Error : Type 0 where
  value_error : Error

abbrev pub active_call : ToolCall → ActiveCall
active_call call = record {
  tool_name = call.name;
  arguments_fingerprint = call.arguments_fingerprint;
}

-- The loop of `record_requested_calls`, over the ids that are known.
unfoldable pub add_calls :
    List String → List ToolCall → Dict ActiveCall → Result Error (Dict ActiveCall)
add_calls known [] records = ok records
add_calls known (call ∷ calls) records =
    let rest = add_calls known calls (insert call.id (active_call call) records) in
    if contains call.id known || is_some (lookup call.id records) then raise value_error else rest

-- `record_requested_calls`
unfoldable pub record_requested_calls :
    {V : Type 0} → List ToolCall → ToolRecoveryState V → Result Error (ToolRecoveryState V)
record_requested_calls calls s = do
  records ← add_calls s.seen_call_ids calls []
  ok (record s { active_calls = records; seen_call_ids = s.seen_call_ids ++ keys records })
