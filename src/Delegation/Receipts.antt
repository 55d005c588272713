-- ===== src/Delegation/Receipts.antt =====
-- moduagent/delegation/receipts.py: the durable receipt of a delegation. Record has the receipt and
-- its `__post_init__`, Transition the change that `ReceiptManager.transition` makes, Fields
-- the fields that it replaces, Store the
-- in-memory store, `claim`, the loop of `transition` and `receipt_action`.
pub mod Record
pub mod Transition
pub mod Fields
pub mod Store
pub mod Life
pub mod Atomicity
mod Samples
