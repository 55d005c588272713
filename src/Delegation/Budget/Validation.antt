-- ===== src/Delegation/Budget/Validation.antt =====
-- moduagent/delegation/budget.py: on a valid state, the validation that `replace` runs refuses no
-- change that the callbacks' own checks let through.
use text.Mathlib.TextLemmas.{append-eq-nil_iff, cons-ne-nil}
use moduagent.Base.{
  ℕ, ◌+◌, ◌<◌, ◌≡◌, String, true, false, none, ok, raise, arith, lookup, get_or, sum_by-insert,
  all_entries-insert, eq_iff, eq_refl, leb, ltb, inl, inr, length-insert, if◌then◌else◌, Bool-cases,
  is_empty,
}
use moduagent.Delegation.Models.{AgentRef, BudgetLease, str, is_identifier}
use moduagent.Delegation.Budget.State.{
  ExecutionGroupBudgetState, StoredBudgetLease, active_count, is_active, has_key, is_own_key,
  stored_lease, budget_exceeded, execution_group_cancelled, execution_group_timeout,
  execution_group_model_turns_exceeded, delegation_count_exceeded, delegation_per_agent_exceeded,
  retry_reservation,
}
use moduagent.Delegation.Budget.Changes.{
  replaced, assert_live, adopt_active_lease, budget_lease, reserve_delegation, reserve_model_turn,
  open_lease, with_new_lease,
}
use moduagent.Delegation.Budget.Validity.{IsValid, post_init-valid}
use moduagent.Delegation.Budget.Outcomes.{with_model_turns, new_lease, IsLive}

-- The key of an Agent is never empty.
str-not_empty : (a : AgentRef) → is_empty (str a) ≡ false
unfolding str
str-not_empty a = elim (Bool-cases (is_empty (str a))) [
  | inl e ↦
      absurd
        (cons-ne-nil _ _ ((append-eq-nil_iff.0 ((append-eq-nil_iff.0 ((eq_iff _ "").0 e)).1)).0))
  | inr e ↦ e
]

identifier-not_empty : (s : String) → is_identifier s ≡ true → is_empty s ≡ false
unfolding is_identifier
identifier-not_empty String.[] h = cc
identifier-not_empty (String.◌∷◌ c s) h = elim (Bool-cases (is_empty (String.◌∷◌ c s))) [
  | inl e ↦ absurd (cons-ne-nil c s ((eq_iff _ "").0 e))
  | inr e ↦ e
]

-- On a valid state `reserve_model_turn` refuses a cancelled group, then a late call, then a call
-- over the limit, and otherwise counts the turns.
pub reserve_model_turn_lem :
    (now n : ℕ) (s : ExecutionGroupBudgetState)
    → IsValid s
    → reserve_model_turn now n s ≡ (
        if s.cancelled
        then raise (budget_exceeded execution_group_cancelled)
        else if leb s.absolute_deadline now
        then raise (budget_exceeded execution_group_timeout)
        else if ltb s.limits.max_total_model_turns (s.model_turns + n)
        then raise (budget_exceeded execution_group_model_turns_exceeded)
        else ok (replaced (with_model_turns n s) tt))
unfolding reserve_model_turn assert_live
reserve_model_turn_lem now n s v = ground (arith, post_init-valid (with_model_turns n s))

module _ (id : String) (callee : AgentRef) (s : ExecutionGroupBudgetState) where
  with_new_lease-IsValid :
      IsValid s
      → is_empty id ≡ false
      → lookup id s.leases ≡ none
      → active_count s.leases < s.limits.max_parallel_delegations
      → IsValid (with_new_lease id callee (new_lease id callee) s)
  with_new_lease-IsValid v named fresh free = ground (
    arith,
    str-not_empty callee,
    eq_refl id,
    all_entries-insert has_key (str callee)
        (get_or 0 (lookup (str callee) s.per_agent_delegations) + 1) s.per_agent_delegations,
    all_entries-insert is_own_key id (new_lease id callee) s.leases,
    sum_by-insert (λ n. n) (str callee) (get_or 0 (lookup (str callee) s.per_agent_delegations) + 1)
        s.per_agent_delegations,
    sum_by-insert (λ (l : StoredBudgetLease). is_active l.status) id (new_lease id callee) s.leases,
    length-insert id (new_lease id callee) s.leases,
  )

  abbrev pub granted_lease : BudgetLease
  granted_lease = record {
    lease_id = id;
    execution_group_id = s.execution_group_id;
    callee = callee;
    absolute_deadline = s.absolute_deadline;
  }

  -- On a valid state of a live group whose name is an identifier, a new lease is refused over the
  -- group's count, then over the Agent's count, then put back in the queue while the parallel limit
  -- is reached; otherwise the lease is stored and granted. No branch is a failed validation.
  pub reserve_delegation_lem :
      (now : ℕ)
      → IsValid s
      → IsLive now s
      → is_identifier id ≡ true
      → is_identifier s.execution_group_id ≡ true
      → lookup id s.leases ≡ none
      → reserve_delegation now id callee s ≡ (
          if leb s.limits.max_delegations s.delegation_count
          then raise (budget_exceeded delegation_count_exceeded)
          else if leb s.limits.max_delegations_per_agent
              (get_or 0 (lookup (str callee) s.per_agent_delegations))
          then raise (budget_exceeded delegation_per_agent_exceeded)
          else if leb s.limits.max_parallel_delegations (active_count s.leases)
          then raise retry_reservation
          else ok (replaced (with_new_lease id callee (new_lease id callee) s) granted_lease))
  unfolding reserve_delegation assert_live adopt_active_lease open_lease budget_lease stored_lease
  reserve_delegation_lem now v live name group fresh = ground (
    arith,
    str-not_empty callee,
    identifier-not_empty id,
    with_new_lease-IsValid v (identifier-not_empty id name) fresh,
    post_init-valid (with_new_lease id callee (new_lease id callee) s),
  )
