-- ===== src/Delegation/Receipts/Fields.antt =====
-- moduagent/delegation/receipts.py: the fields of a receipt that a transition replaces.
use moduagent.Base.{ℕ, ◌+◌, is_some, true, String, arith, ◌≡◌, refl, Option, none, some}
use moduagent.Delegation.Receipts.Record.{Status, DelegationReceipt}
use moduagent.Delegation.Receipts.Transition.{Changes, changed, given, is_attempt, is_text}

-- A field after a change: the value that was given, or what it was.
pub data Put {ℓ} {A : Type ℓ} (o : Option A) (old new : A) : Type ℓ where
  left_alone : o ≡ none → new ≡ old → Put o old new
  replaced : o ≡ some new → Put o old new

given-Put {ℓ} : {A : Type ℓ} (o : Option A) (old : A) → Put o old (given o old)
given-Put none old = left_alone refl refl
given-Put (some new) old = replaced refl

-- What a transition makes of each field: the name stays, the revision is the next one, and each other
-- field is put.
pub record Updated (c : Changes) (r t : DelegationReceipt) : Type 0 where
  pub same_id : t.delegation_id ≡ r.delegation_id
  pub next_revision : t.revision ≡ r.revision + 1
  pub put_execution_group_id : Put c.execution_group_id r.execution_group_id t.execution_group_id
  pub put_root_run_id : Put c.root_run_id r.root_run_id t.root_run_id
  pub put_parent_run_id : Put c.parent_run_id r.parent_run_id t.parent_run_id
  pub put_parent_tool_call_id :
      Put c.parent_tool_call_id r.parent_tool_call_id t.parent_tool_call_id
  pub put_caller_agent_ref : Put c.caller_agent_ref r.caller_agent_ref t.caller_agent_ref
  pub put_callee_agent_ref : Put c.callee_agent_ref r.callee_agent_ref t.callee_agent_ref
  pub put_child_run_id : Put c.child_run_id r.child_run_id t.child_run_id
  pub put_request_digest : Put c.request_digest r.request_digest t.request_digest
  pub put_context_digest : Put c.context_digest r.context_digest t.context_digest
  pub put_attempt : Put c.attempt r.attempt t.attempt
  pub put_owner_token : Put c.owner_token r.owner_token t.owner_token
  pub put_finish_reason : Put c.finish_reason r.finish_reason t.finish_reason
  pub put_retryable : Put c.retryable r.retryable t.retryable
  pub put_resumable : Put c.resumable r.resumable t.resumable
  pub put_result_digest : Put c.result_digest r.result_digest t.result_digest
  pub put_result_payload : Put c.result_payload r.result_payload t.result_payload
  pub put_result_ref : Put c.result_ref r.result_ref t.result_ref
  pub put_error_code : Put c.error_code r.error_code t.error_code
  pub put_lease_id : Put c.lease_id r.lease_id t.lease_id

pub changed-Updated :
    (c : Changes) (status : Status) (r : DelegationReceipt) → Updated c r (changed c status r)
changed-Updated c status r = record {
  same_id = refl;
  next_revision = refl;
  put_execution_group_id = given-Put c.execution_group_id r.execution_group_id;
  put_root_run_id = given-Put c.root_run_id r.root_run_id;
  put_parent_run_id = given-Put c.parent_run_id r.parent_run_id;
  put_parent_tool_call_id = given-Put c.parent_tool_call_id r.parent_tool_call_id;
  put_caller_agent_ref = given-Put c.caller_agent_ref r.caller_agent_ref;
  put_callee_agent_ref = given-Put c.callee_agent_ref r.callee_agent_ref;
  put_child_run_id = given-Put c.child_run_id r.child_run_id;
  put_request_digest = given-Put c.request_digest r.request_digest;
  put_context_digest = given-Put c.context_digest r.context_digest;
  put_attempt = given-Put c.attempt r.attempt;
  put_owner_token = given-Put c.owner_token r.owner_token;
  put_finish_reason = given-Put c.finish_reason r.finish_reason;
  put_retryable = given-Put c.retryable r.retryable;
  put_resumable = given-Put c.resumable r.resumable;
  put_result_digest = given-Put c.result_digest r.result_digest;
  put_result_payload = given-Put c.result_payload r.result_payload;
  put_result_ref = given-Put c.result_ref r.result_ref;
  put_error_code = given-Put c.error_code r.error_code;
  put_lease_id = given-Put c.lease_id r.lease_id;
}

pub given-attempt : (n m : ℕ) (o : Option ℕ) → is_attempt n o ≡ true → given o m ≡ n
given-attempt n m none e = cc
given-attempt n m (some k) e = ground arith

pub given-text :
    (o : Option (Option String)) (m : Option String) → is_text o ≡ true → is_some (given o m) ≡ true
given-text none m e = cc
given-text (some none) m e = cc
given-text (some (some s)) m e = refl
