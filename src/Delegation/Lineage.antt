-- ===== src/Delegation/Lineage.antt =====
-- moduagent/delegation/models.py and guards.py: who called whom. Record has `RunLineage`, Codec its
-- dictionaries, Guards `CycleGuard`, Chains and Reach the lineages that guarded delegations reach,
-- Authorization the two authorizers and Permission when they let a delegation through.
pub mod Record
pub mod Guards
pub mod Chains
pub mod Reach
pub mod Authorization
pub mod Permission
pub mod Codec
mod Samples
