-- ===== src/Delegation/Receipts/Samples.antt =====
-- Tests of moduagent/delegation/receipts.py, and its theorems at concrete inputs.
use mathlib.Core.List.{Memᴰ}
use moduagent.Base.{
  ◌≡◌, ◌≢◌, refl, String, true, false, not, is_some, none, some, ok, [], ◌∷◌, lookup, insert,
}
use moduagent.Delegation.Models.{is_identifier, is_classification}
use moduagent.Delegation.Receipts.Record.{
  reserved, running, completed, DelegationReceipt, fields_valid, is_sha256, has_prefix, post_init,
}
use moduagent.Delegation.Receipts.Transition.{Changes, keep, write, advance, transition_round}
use moduagent.Delegation.Receipts.Life.{
  Move, IsValid, transition_round-Move, settled_for_good, transition_again,
}
use moduagent.Delegation.Receipts.Fields.{Updated}
use moduagent.Delegation.Receipts.Store.{
  Store, claim, transition, compare_and_swap, receipt_action, start,
}
use moduagent.Delegation.Receipts.Atomicity.{claim_once, Done, transition-Done}

abbrev digest : String
digest = "sha256:aaaaaaaaaaaaaaaaaaaaaaaaaaaaaaaaaaaaaaaaaaaaaaaaaaaaaaaaaaaaaaaa"

abbrev claimed : DelegationReceipt
claimed = record {
  delegation_id = "dlg:1";
  execution_group_id = "g";
  root_run_id = "r";
  parent_run_id = "r";
  parent_tool_call_id = "call-1";
  caller_agent_ref = record { agent_id = "a"; version = "1.0.0" };
  callee_agent_ref = record { agent_id = "b"; version = "1.0.0" };
  child_run_id = "run:1";
  request_digest = digest;
  context_digest = "ctx:1";
  attempt = 1;
  owner_token = some "owner";
  status = reserved;
  finish_reason = none;
  retryable = false;
  resumable = false;
  result_digest = none;
  result_payload = none;
  result_ref = none;
  error_code = none;
  lease_id = none;
  revision = 1;
}

-- No field is given.
abbrev nothing : Changes
nothing = record {
  execution_group_id = none;
  root_run_id = none;
  parent_run_id = none;
  parent_tool_call_id = none;
  caller_agent_ref = none;
  callee_agent_ref = none;
  child_run_id = none;
  request_digest = none;
  context_digest = none;
  attempt = none;
  owner_token = none;
  finish_reason = none;
  retryable = none;
  resumable = none;
  result_digest = none;
  result_payload = none;
  result_ref = none;
  error_code = none;
  lease_id = none;
}

abbrev leased : Changes
leased = record nothing { attempt = some 1; lease_id = some (some "lease:1") }

abbrev started : DelegationReceipt
started = record claimed { status = running; lease_id = some "lease:1"; revision = 2 }

abbrev with_result : Changes
with_result = record nothing {
  result_digest = some (some digest);
  result_payload = some (some "{}");
}

abbrev finished : DelegationReceipt
finished = record started {
  status = completed;
  result_digest = some digest;
  result_payload = some "{}";
  revision = 3;
}

starts : transition_round (reserved ∷ []) leased running claimed ≡ ok (write started)
unfolding transition_round advance post_init fields_valid is_identifier is_classification is_sha256
    has_prefix
starts = refl

finishes : transition_round (running ∷ []) with_result completed started ≡ ok (write finished)
unfolding transition_round advance post_init fields_valid is_identifier is_classification is_sha256
    has_prefix
finishes = refl

transition_round-Move_example :
    Memᴰ reserved (reserved ∷ [])
    × (running ≡ running)
    × Move claimed started
    × Updated leased claimed started
    × IsValid started
transition_round-Move_example =
    transition_round-Move (reserved ∷ []) leased running claimed started starts

settled_for_good_example :
    transition_round (completed ∷ []) nothing reserved finished ≢ ok (write claimed)
settled_for_good_example = settled_for_good (completed ∷ []) nothing reserved finished claimed refl

transition_again_example :
    transition_round (running ∷ []) with_result completed finished ≡ ok (keep finished)
transition_again_example =
    transition_again (running ∷ []) with_result completed started finished finishes refl

abbrev rival : DelegationReceipt
rival = record claimed { owner_token = some "rival" }

claim_once_example :
    (true ≡ not (is_some (lookup {V = DelegationReceipt} "dlg:1" [])))
    × (receipt_action claimed false true ≢ start)
    × (claimed ≡ claimed)
    × (◌≡◌ {A = Store} (("dlg:1", claimed) ∷ []) (("dlg:1", claimed) ∷ []))
unfolding claim lookup insert
claim_once_example =
    claim_once claimed rival (record { receipt = claimed; created = true })
      (record { receipt = claimed; created = false }) [] (("dlg:1", claimed) ∷ [])
      (("dlg:1", claimed) ∷ []) true refl refl refl

unmoved :
    (id : String) (st : Store) (r c : DelegationReceipt)
    → lookup id st ≡ some r
    → lookup id st ≡ some c
    → c.revision ≡ r.revision
    → c ≡ r
unmoved id st r c p q e = cc

transition-Done_example :
    Done
      (λ _ st. st)
      (λ _ st. st)
      "dlg:1"
      (reserved ∷ [])
      leased
      running
      64
      (("dlg:1", claimed) ∷ [])
      started
      (("dlg:1", started) ∷ [])
unfolding transition compare_and_swap lookup insert transition_round advance post_init fields_valid
    is_identifier is_classification is_sha256 has_prefix
transition-Done_example =
    transition-Done (λ _ st. st) (λ _ st. st) "dlg:1" (reserved ∷ []) leased running 64
      (("dlg:1", claimed) ∷ []) (("dlg:1", started) ∷ []) started (λ m. unmoved) refl
