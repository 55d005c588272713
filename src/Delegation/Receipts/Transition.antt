-- ===== src/Delegation/Receipts/Transition.antt =====
-- moduagent/delegation/receipts.py: the change of one receipt that `ReceiptManager.transition`
-- makes, from the receipt that it read.
use moduagent.Base.{
  ℕ, ◌+◌, String, Bool, true, false, not, ◌&&◌, ◌||◌, Option, none, some, Result, ok, guard, ◌>>◌,
  ◌>>=◌, ◌==◌, List, [], ◌∷◌, opt_eq, bool_eq, str_eq, if◌then◌else◌,
}
use moduagent.Delegation.Models.{AgentRef}
use moduagent.Delegation.Receipts.Record.{
  Status, reserved, running, completed, failed, cancelled, manual_required, Error, store_error,
  state_conflict, attempt_invalid, owner_invalid, lease_invalid, terminal, DelegationReceipt,
  post_init,
}

abbrev pub status_eq : Status → Status → Bool
status_eq reserved reserved = true
status_eq running running = true
status_eq completed completed = true
status_eq failed failed = true
status_eq cancelled cancelled = true
status_eq manual_required manual_required = true
status_eq _ _ = false

-- `status in states`
abbrev pub is_in : Status → List Status → Bool
is_in s [] = false
is_in s (t ∷ ts) = status_eq s t || is_in s ts

-- `_TERMINAL_RECEIPT_STATES`
abbrev pub is_terminal : Status → Bool
is_terminal reserved = false
is_terminal running = false
is_terminal _ = true

-- `**changes`: a field that was not given is none. `delegation_id` and `status` are parameters of their
-- own, and `revision` is never given: `replace` would get it twice.
pub record Changes : Type 0 where
  pub execution_group_id : Option String
  pub root_run_id : Option String
  pub parent_run_id : Option String
  pub parent_tool_call_id : Option String
  pub caller_agent_ref : Option AgentRef
  pub callee_agent_ref : Option AgentRef
  pub child_run_id : Option String
  pub request_digest : Option String
  pub context_digest : Option String
  pub attempt : Option ℕ
  pub owner_token : Option (Option String)
  pub finish_reason : Option (Option String)
  pub retryable : Option Bool
  pub resumable : Option Bool
  pub result_digest : Option (Option String)
  pub result_payload : Option (Option String)
  pub result_ref : Option (Option String)
  pub error_code : Option (Option String)
  pub lease_id : Option (Option String)

abbrev pub given {ℓ} : {A : Type ℓ} → Option A → A → A
given none old = old
given (some new) old = new

-- `getattr(current, name) == expected`, for a field that was given.
abbrev pub holds {ℓ} : {A : Type ℓ} → (A → A → Bool) → Option A → A → Bool
holds eq none current = true
holds eq (some expected) current = eq current expected

-- Agent references are equal when their ids and versions are.
abbrev pub agent_eq : AgentRef → AgentRef → Bool
agent_eq a b = str_eq a.agent_id b.agent_id && str_eq a.version b.version

-- The loop over `changes.items()` that accepts a repeated transition.
unfoldable pub already_made : Changes → DelegationReceipt → Bool
already_made c r =
    holds str_eq c.execution_group_id r.execution_group_id
    && holds str_eq c.root_run_id r.root_run_id
    && holds str_eq c.parent_run_id r.parent_run_id
    && holds str_eq c.parent_tool_call_id r.parent_tool_call_id
    && holds agent_eq c.caller_agent_ref r.caller_agent_ref
    && holds agent_eq c.callee_agent_ref r.callee_agent_ref
    && holds str_eq c.child_run_id r.child_run_id
    && holds str_eq c.request_digest r.request_digest
    && holds str_eq c.context_digest r.context_digest
    && holds ◌==◌ c.attempt r.attempt
    && holds opt_eq c.owner_token r.owner_token
    && holds opt_eq c.finish_reason r.finish_reason
    && holds bool_eq c.retryable r.retryable
    && holds bool_eq c.resumable r.resumable
    && holds opt_eq c.result_digest r.result_digest
    && holds opt_eq c.result_payload r.result_payload
    && holds opt_eq c.result_ref r.result_ref
    && holds opt_eq c.error_code r.error_code
    && holds opt_eq c.lease_id r.lease_id

-- `replace(current, revision=current.revision + 1, status=status, **changes)`, before validation
abbrev pub changed : Changes → Status → DelegationReceipt → DelegationReceipt
changed c status r = record r {
  execution_group_id = given c.execution_group_id r.execution_group_id;
  root_run_id = given c.root_run_id r.root_run_id;
  parent_run_id = given c.parent_run_id r.parent_run_id;
  parent_tool_call_id = given c.parent_tool_call_id r.parent_tool_call_id;
  caller_agent_ref = given c.caller_agent_ref r.caller_agent_ref;
  callee_agent_ref = given c.callee_agent_ref r.callee_agent_ref;
  child_run_id = given c.child_run_id r.child_run_id;
  request_digest = given c.request_digest r.request_digest;
  context_digest = given c.context_digest r.context_digest;
  attempt = given c.attempt r.attempt;
  owner_token = given c.owner_token r.owner_token;
  status = status;
  finish_reason = given c.finish_reason r.finish_reason;
  retryable = given c.retryable r.retryable;
  resumable = given c.resumable r.resumable;
  result_digest = given c.result_digest r.result_digest;
  result_payload = given c.result_payload r.result_payload;
  result_ref = given c.result_ref r.result_ref;
  error_code = given c.error_code r.error_code;
  lease_id = given c.lease_id r.lease_id;
  revision = r.revision + 1;
}

-- A given field that is a text and not None.
abbrev pub is_text : Option (Option String) → Bool
is_text (some (some s)) = true
is_text _ = false

abbrev pub is_attempt : ℕ → Option ℕ → Bool
is_attempt n none = false
is_attempt n (some m) = m == n

-- `resumable_restart`
unfoldable pub is_restart : Status → DelegationReceipt → Bool
is_restart status r = status_eq r.status failed && r.resumable && status_eq status reserved

unfoldable pub check_restart : Changes → DelegationReceipt → Result Error (Unit {0})
check_restart c r =
    guard (is_attempt (r.attempt + 1) c.attempt) (store_error attempt_invalid)
    >> (guard (is_text c.owner_token) (store_error owner_invalid)
        >> guard (is_text c.lease_id) (store_error lease_invalid))

-- What one round of `transition` does with the receipt that it read: keep it, or store a new one.
pub data Round : Type 0 where
  keep : DelegationReceipt → Round
  write : DelegationReceipt → Round

unfoldable pub advance : Changes → Status → DelegationReceipt → Result Error Round
unfolding check_restart is_restart
advance c status r = do
  (if is_restart status r then check_restart c r else ok tt)
  guard (not (is_terminal r.status) || is_restart status r) (store_error terminal)
  updated ← post_init (changed c status r)
  ok (write updated)

unfoldable pub transition_round :
    List Status → Changes → Status → DelegationReceipt → Result Error Round
transition_round expected c status r =
    if is_in r.status expected
    then advance c status r
    else guard (status_eq r.status status && already_made c r) (store_error state_conflict)
      >> ok (keep r)
