-- ===== src/Delegation/Budget.antt =====
-- moduagent/delegation/budget.py: the shared budget of an execution group, kept as one state
-- record in a store with compare-and-swap. State has the record and its `__post_init__`, Changes
-- the callbacks that compute the next state, Booking the entries that they book, Store the in-memory store and `_mutate`.
pub mod State
pub mod Changes
pub mod Closing
pub mod Validity
pub mod Calls
pub mod Outcomes
pub mod Invariant
pub mod Lifecycle
pub mod Usage
pub mod Booking
pub mod Validation
pub mod Retry
pub mod Store
pub mod Steps
pub mod Atomicity
pub mod Serial
pub mod Ensure
mod Samples
