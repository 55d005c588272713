-- ===== src/Runtime/ModelGuard.antt =====
-- moduagent/runtime/model_guard.py: `NoProgressCircuitBreaker`. A method returns the new state
-- beside its result, since what it wrote stays written when it raises. Breaker has the state and the
-- methods, Invariant, Streak and Restore what holds of them.
pub mod Breaker
pub mod Invariant
pub mod Streak
pub mod Restore
mod Samples
