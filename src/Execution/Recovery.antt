-- ===== src/Execution/Recovery.antt =====
-- moduagent/execution/planning/recovery.py: `ToolRecoveryController`, which decides after a failed
-- Tool batch whether to repair the call, to replan or to fail. State has the state that it keeps and
-- `record_requested_calls`, Decision has `decide`, Verdicts what a decision implies,
-- Bounds sequences of requests and the counts of the state, Repairs the repairs that are ordered,
-- Once what the requests do to one Tool call, Completeness when a repair is ordered.
pub mod State
pub mod Decision
pub mod Verdicts
pub mod Bounds
pub mod Repairs
pub mod Once
pub mod Completeness
mod Samples
