-- ===== src/Delegation/Receipts/Store.antt =====
-- moduagent/delegation/receipts.py: `InMemoryDelegationReceiptStore`, the loop of
-- `ReceiptManager.transition` and `receipt_action`.
use moduagent.Base.{
  ℕ, zero, suc, ◌+◌, String, Bool, true, false, not, Option, none, some, Result, ok, raise, guard,
  ◌>>◌, ◌==◌, ◌&&◌, List, Dict, lookup, insert, str_eq, if◌then◌else◌,
}
use moduagent.Delegation.Receipts.Record.{
  Status, reserved, running, completed, failed, cancelled, manual_required, Error, store_error,
  value_error, not_found, store_contention, DelegationReceipt,
}
use moduagent.Delegation.Receipts.Transition.{
  status_eq, Changes, Round, keep, write, transition_round,
}

abbrev pub Store : Type 0
Store = Dict DelegationReceipt

pub record ReceiptClaim : Type 0 where
  pub receipt : DelegationReceipt
  pub created : Bool

claim_current : DelegationReceipt → Store → Option DelegationReceipt → ReceiptClaim × Store
claim_current r st none = (record { receipt = r; created = true }, insert r.delegation_id r st)
claim_current r st (some current) = (record { receipt = current; created = false }, st)

-- `claim`
unfoldable pub claim : DelegationReceipt → Store → Result Error (ReceiptClaim × Store)
unfolding claim_current
claim r st =
    guard (status_eq r.status reserved) value_error
    >> ok (claim_current r st (lookup r.delegation_id st))

swap_current :
    String → ℕ → DelegationReceipt → Store → Option DelegationReceipt → Result Error (Bool × Store)
swap_current id expected r st none = ok (false, st)
swap_current id expected r st (some current) =
    if not (current.revision == expected) then ok (false, st) else (do
      guard (str_eq r.delegation_id id) value_error
      guard (r.revision == expected + 1) value_error
      ok (true, insert id r st))

-- `compare_and_swap`
unfoldable pub compare_and_swap :
    String → ℕ → DelegationReceipt → Store → Result Error (Bool × Store)
unfolding swap_current
compare_and_swap id expected r st = swap_current id expected r st (lookup id st)

after_swap :
    DelegationReceipt
    → Result Error (Bool × Store)
    → Store
    → (Store → Result Error DelegationReceipt × Store)
    → Result Error DelegationReceipt × Store
after_swap updated (raise e) st retry = (raise e, st)
after_swap updated (ok (true, st')) st retry = (ok updated, st')
after_swap updated (ok (false, st')) st retry = retry st'

after_round :
    (Store → Store)
    → String
    → DelegationReceipt
    → Result Error Round
    → Store
    → (Store → Result Error DelegationReceipt × Store)
    → Result Error DelegationReceipt × Store
unfolding after_swap
after_round others id current (raise e) st retry = (raise e, st)
after_round others id current (ok (keep r)) st retry = (ok r, st)
after_round others id current (ok (write r)) st retry =
    after_swap r (compare_and_swap id current.revision r (others st)) (others st) retry

after_get :
    (Store → Store)
    → String
    → List Status
    → Changes
    → Status
    → Option DelegationReceipt
    → Store
    → (Store → Result Error DelegationReceipt × Store)
    → Result Error DelegationReceipt × Store
unfolding after_round
after_get others id expected c status none st retry = (raise (store_error not_found), st)
after_get others id expected c status (some current) st retry =
    after_round others id current (transition_round expected c status current) st retry

-- `ReceiptManager.transition` with the attempts that are left. `others n` and `asleep n` are what
-- other clients do between the read and the swap, and after a failed swap, with n attempts left.
unfoldable pub transition :
    (others asleep : ℕ → Store → Store) (id : String)
    → List Status
    → Changes
    → Status
    → ℕ
    → Store
    → Result Error DelegationReceipt × Store
unfolding after_get
transition others asleep id expected c status zero st = (raise (store_error store_contention), st)
transition others asleep id expected c status (suc n) st =
    after_get (others n) id expected c status (lookup id st) st
      (λ st'. transition others asleep id expected c status n (asleep n st'))

pub data ReceiptAction : Type 0 where
  start replay reconcile resume terminal_failure terminal_cancelled manual : ReceiptAction

action_of : Status → Bool → Bool → ReceiptAction
action_of completed resumable allow_resume = replay
action_of reserved resumable allow_resume = reconcile
action_of running resumable allow_resume = reconcile
action_of failed resumable allow_resume =
    if resumable && allow_resume then resume else terminal_failure
action_of cancelled resumable allow_resume = terminal_cancelled
action_of manual_required resumable allow_resume = manual

-- `receipt_action`
unfoldable pub receipt_action : DelegationReceipt → Bool → Bool → ReceiptAction
unfolding action_of
receipt_action r created allow_resume =
    if created then start else action_of r.status r.resumable allow_resume
