-- ===== src/Runtime.antt =====
-- moduagent/runtime: ModelGuard is model_guard.py, which bounds the model calls of a run.
pub mod ModelGuard
