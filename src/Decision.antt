-- ===== src/Decision.antt =====
-- moduagent/decision: what an Agent decides to do next. Planning models planning.py.
pub mod Planning
pub mod Execution
