-- ===== src/Execution.antt =====
-- moduagent/execution: running an Agent's decisions. Recovery models planning/recovery.py.
pub mod Recovery
