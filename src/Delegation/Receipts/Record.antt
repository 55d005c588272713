-- ===== src/Delegation/Receipts/Record.antt =====
-- moduagent/delegation/receipts.py: `DelegationReceipt` and its validation. The result payload, a
-- JSON mapping, is its canonical JSON text.
use moduagent.Base.{
  ℕ, String, Bool, true, false, not, ◌&&◌, ◌||◌, Option, none, some, is_some, Result, ok, guard,
  ◌>>◌, leb, ◌==◌, codes, strip_prefix, is_lower_hex, length, all, List, if◌then◌else◌,
}
use moduagent.Delegation.Models.{AgentRef, is_identifier, is_classification}

pub data Status : Type 0 where
  reserved running completed failed cancelled manual_required : Status

pub data Code : Type 0 where
  not_found state_conflict attempt_invalid owner_invalid lease_invalid terminal store_contention :
      Code

-- `ReceiptStoreError` with its code, or a ValueError.
pub data Error : Type 0 where
  store_error : Code → Error
  value_error : Error

pub record DelegationReceipt : Type 0 where
  pub delegation_id : String
  pub execution_group_id : String
  pub root_run_id : String
  pub parent_run_id : String
  pub parent_tool_call_id : String
  pub caller_agent_ref : AgentRef
  pub callee_agent_ref : AgentRef
  pub child_run_id : String
  pub request_digest : String
  pub context_digest : String
  pub attempt : ℕ
  pub owner_token : Option String
  pub status : Status
  pub finish_reason : Option String
  pub retryable : Bool
  pub resumable : Bool
  pub result_digest : Option String
  pub result_payload : Option String
  pub result_ref : Option String
  pub error_code : Option String
  pub lease_id : Option String
  pub revision : ℕ

hex_digest : Option (List ℕ) → Bool
unfolding is_lower_hex
hex_digest none = false
hex_digest (some digest) = length digest == 64 && all is_lower_hex digest

-- `_is_sha256`
unfoldable pub is_sha256 : String → Bool
unfolding hex_digest strip_prefix
is_sha256 s = hex_digest (strip_prefix (codes "sha256:") (codes s))

unfoldable pub has_prefix : String → String → Bool
unfolding strip_prefix
has_prefix p s = is_some (strip_prefix (codes p) (codes s))

-- A check of a field that may be None.
abbrev pub when_some : (String → Bool) → Option String → Bool
when_some p none = true
when_some p (some s) = p s

abbrev pub is_completed : Status → Bool
is_completed completed = true
is_completed _ = false

abbrev pub is_open : Status → Bool
is_open reserved = true
is_open running = true
is_open _ = false

abbrev pub is_manual : Status → Bool
is_manual manual_required = true
is_manual _ = false

-- The checks of single fields, in `__post_init__`.
unfoldable pub fields_valid : DelegationReceipt → Bool
fields_valid r =
    is_identifier r.delegation_id
    && is_identifier r.execution_group_id
    && is_identifier r.root_run_id
    && is_identifier r.parent_run_id
    && is_identifier r.parent_tool_call_id
    && is_identifier r.child_run_id
    && is_sha256 r.request_digest
    && has_prefix "ctx:" r.context_digest
    && is_identifier r.context_digest
    && leb 1 r.attempt
    && when_some is_identifier r.owner_token
    && when_some is_classification r.finish_reason
    && when_some is_classification r.error_code
    && when_some is_identifier r.result_ref
    && when_some is_identifier r.lease_id
    && leb 1 r.revision
    && when_some is_sha256 r.result_digest

-- The checks that tie the result to the status.
unfoldable pub result_valid : DelegationReceipt → Bool
result_valid r =
    if is_completed r.status
    then is_some r.result_digest
      && (is_some r.result_payload || is_some r.result_ref)
      && not (is_some r.error_code)
    else not (is_some r.result_payload) && not (is_some r.result_digest)

-- `DelegationReceipt.__post_init__`
unfoldable pub post_init : DelegationReceipt → Result Error DelegationReceipt
unfolding result_valid
post_init r = do
  guard (fields_valid r) value_error
  guard (result_valid r) value_error
  guard (not (is_open r.status) || is_some r.owner_token) value_error
  guard (not (is_manual r.status && r.retryable)) value_error
  ok r
