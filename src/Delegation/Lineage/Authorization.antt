-- ===== src/Delegation/Lineage/Authorization.antt =====
-- moduagent/delegation/guards.py: the authorizers and `authorize_or_reject`. Of the descriptor and
-- the parent's context stand the fields that they read; a frozenset is a list with membership.
use moduagent.Base.{
  String, Bool, true, false, not, ◌&&◌, ◌||◌, Option, none, some, List, [], ◌∷◌, Result, ok, raise,
  guard, ◌>>◌, contains, all, str_eq, if◌then◌else◌, Dict, lookup,
}
use moduagent.Delegation.Models.{AgentRef, is_classification}

pub data Reason : Type 0 where
  delegation_allowed delegation_edge_denied delegation_tenant_denied delegation_principal_denied :
      Reason
  delegation_caller_denied delegation_classification_denied : Reason
  delegation_authorizer_failed delegation_authorizer_protocol_error : Reason
  other : String → Reason

pub record DelegationDecision : Type 0 where
  pub allowed : Bool
  pub reason_code : Reason

pub record DelegationRejected : Type 0 where
  pub code : Reason
  pub unauthorized : Bool

pub record AgentDescriptor : Type 0 where
  pub callable_by : List String
  pub data_classification : String

pub record ParentDelegationContext : Type 0 where
  pub tenant : String
  pub principal : String

pub data Error : Type 0 where
  value_error : Error

-- `_identity_grant`
unfoldable pub identity_grant : Option (List String) → Result Error (Option (List String))
identity_grant none = ok none
identity_grant (some []) = raise value_error
identity_grant (some (x ∷ xs)) = do
  guard (all is_classification (x ∷ xs)) value_error
  ok (some (x ∷ xs))

-- What both authorizers keep beside their edges.
pub record Grants : Type 0 where
  pub allowed_tenants : Option (List String)
  pub allowed_principals : Option (List String)

abbrev pub is_granted : String → Option (List String) → Bool
is_granted value none = true
is_granted value (some values) = contains value values

abbrev pub deny : Reason → DelegationDecision
deny reason = record { allowed = false; reason_code = reason }

abbrev pub may_call : AgentRef → AgentDescriptor → Bool
may_call caller descriptor = elim descriptor.callable_by [
  | [] ↦ true
  | _ ∷ _ ↦ contains "*" descriptor.callable_by || contains caller.agent_id descriptor.callable_by
]

unfoldable pub same_ref : AgentRef → AgentRef → Bool
same_ref a b = str_eq a.agent_id b.agent_id && str_eq a.version b.version

-- `(caller, callee) in self.allowed_edges`
unfoldable pub has_edge : AgentRef → AgentRef → List (AgentRef × AgentRef) → Bool
has_edge caller callee [] = false
has_edge caller callee ((a, b) ∷ edges) =
    (same_ref caller a && same_ref callee b) || has_edge caller callee edges

-- `EdgeDelegationAuthorizer.authorize`
unfoldable pub edge_authorize :
    List (AgentRef × AgentRef)
    → Grants
    → (caller callee : AgentRef) → AgentDescriptor
    → ParentDelegationContext
    → String
    → DelegationDecision
edge_authorize allowed_edges grants caller callee descriptor parent classification =
    if not (has_edge caller callee allowed_edges)
    then deny delegation_edge_denied
    else if not (is_granted parent.tenant grants.allowed_tenants)
    then deny delegation_tenant_denied
    else if not (is_granted parent.principal grants.allowed_principals)
    then deny delegation_principal_denied
    else if not (may_call caller descriptor)
    then deny delegation_caller_denied
    else if not (str_eq classification descriptor.data_classification)
    then deny delegation_classification_denied
    else record { allowed = true; reason_code = delegation_allowed }

abbrev pub callees_of : Option (List String) → List String
callees_of none = []
callees_of (some callees) = callees

-- `DelegationPolicy.authorize`
unfoldable pub policy_authorize :
    Dict (List String)
    → Grants
    → (caller callee : AgentRef) → AgentDescriptor
    → ParentDelegationContext
    → String
    → DelegationDecision
policy_authorize allowed_edges grants caller callee descriptor parent classification =
    if not (contains callee.agent_id (callees_of (lookup caller.agent_id allowed_edges)))
    then deny delegation_edge_denied
    else if not (is_granted parent.tenant grants.allowed_tenants)
    then deny delegation_tenant_denied
    else if not (is_granted parent.principal grants.allowed_principals)
    then deny delegation_principal_denied
    else if not (may_call caller descriptor)
    then deny delegation_caller_denied
    else if not (str_eq classification descriptor.data_classification)
    then deny delegation_classification_denied
    else record { allowed = true; reason_code = delegation_allowed }

-- What a call of an authorizer ends in: a value, which may be no decision, or an exception.
pub data Answer : Type 0 where
  decides : DelegationDecision → Answer
  rejects : DelegationRejected → Answer
  fails breaks_protocol : Answer

-- `authorize_or_reject`
unfoldable pub authorize_or_reject : Answer → Result DelegationRejected (Unit {0})
authorize_or_reject (rejects rejected) = raise rejected
authorize_or_reject fails =
    raise (record { code = delegation_authorizer_failed; unauthorized = true })
authorize_or_reject breaks_protocol =
    raise (record { code = delegation_authorizer_protocol_error; unauthorized = true })
authorize_or_reject (decides decision) = do
  guard decision.allowed (record { code = decision.reason_code; unauthorized = true })
  ok tt
