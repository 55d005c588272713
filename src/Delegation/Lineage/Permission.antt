-- ===== src/Delegation/Lineage/Permission.antt =====
-- moduagent/delegation/guards.py: when a delegation is let through.
use moduagent.Base.{◌≡◌, String, true}
use moduagent.Delegation.Models.{AgentRef}
use moduagent.Delegation.Lineage.Authorization.{
  Grants, AgentDescriptor, ParentDelegationContext, is_granted, may_call,
}

-- The conditions that both authorizers share.
pub record IsPermitted (grants : Grants) (caller : AgentRef) (descriptor : AgentDescriptor)
    (parent : ParentDelegationContext) (classification : String) : Type 0 where
  pub tenant_granted : is_granted parent.tenant grants.allowed_tenants ≡ true
  pub principal_granted : is_granted parent.principal grants.allowed_principals ≡ true
  pub caller_accepted : may_call caller descriptor ≡ true
  pub classification_matches : classification ≡ descriptor.data_classification
