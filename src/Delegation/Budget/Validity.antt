-- ===== src/Delegation/Budget/Validity.antt =====
-- moduagent/delegation/budget.py: what `__post_init__` accepts, as a record.
use moduagent.Base.{
  ◌≤◌, ◌≡◌, true, false, ok, raise, ◌⊎◌, arith, length, sum_by, all_entries, is_empty,
}
use moduagent.Delegation.Budget.State.{
  value_error, ExecutionGroupBudgetState, active_count, has_key, is_own_key, post_init,
}

pub record IsValid (s : ExecutionGroupBudgetState) : Type 0 where
  pub named : is_empty s.execution_group_id ≡ false
  pub started : 1 ≤ s.revision
  pub agents_named : all_entries has_key s.per_agent_delegations ≡ true
  pub leases_keyed : all_entries is_own_key s.leases ≡ true
  pub agents_counted : sum_by (λ n. n) s.per_agent_delegations ≡ s.delegation_count
  pub leases_counted : length s.leases ≡ s.delegation_count
  pub turns_bounded : s.model_turns ≤ s.limits.max_total_model_turns
  pub calls_bounded : s.tool_calls ≤ s.limits.max_total_tool_calls
  pub active_bounded : active_count s.leases ≤ s.limits.max_parallel_delegations
  pub usage_named : all_entries has_key s.usage ≡ true

-- A valid record passes its own validation.
pub post_init-valid : (s : ExecutionGroupBudgetState) → IsValid s → post_init s ≡ ok s
unfolding post_init
post_init-valid s v = ground arith

-- Validation either refuses the record with a ValueError, or leaves it as it is, and then it is
-- valid.
pub post_init-cases :
    (s : ExecutionGroupBudgetState)
    → (post_init s ≡ raise value_error) ⊎ ((post_init s ≡ ok s) × IsValid s)
unfolding post_init
post_init-cases s = ground arith
