-- ===== src/Delegation/Budget/Changes.antt =====
-- moduagent/delegation/budget.py: the callbacks that the ledger's operations hand to `_mutate`,
-- each from the current state to the next one and a result. `now` is what `_now()` reads.
use moduagent.Base.{
  ℕ, ◌+◌, String, Bool, true, false, not, Option, none, some, Result, ok, guard, ◌>>◌, ◌>>=◌, ltb,
  leb, str_eq, lookup, insert, get_or,
}
use moduagent.Delegation.Models.{AgentRef, str, BudgetLease, is_identifier}
use moduagent.Delegation.Budget.State.{
  delegation_count_exceeded, delegation_per_agent_exceeded, execution_group_timeout,
  budget_lease_identity_mismatch, budget_lease_not_active, execution_group_model_turns_exceeded,
  execution_group_tool_calls_exceeded, execution_group_cancelled, Error, budget_exceeded,
  value_error, retry_reservation, LeaseStatus, active, StoredBudgetLease, stored_lease,
  ExecutionGroupBudgetState, active_delegations, post_init,
}

-- What a callback returns: the state object it was given, or a new one to be stored.
pub data Update (A : Type 0) : Type 0 where
  unchanged : A → Update A
  replaced : ExecutionGroupBudgetState → A → Update A

-- A callback of `_mutate`.
abbrev pub Operation : Type 0 → Type 0
Operation A = ExecutionGroupBudgetState → Result Error (Update A)

-- The constructor of `BudgetLease`, with its `__post_init__`.
unfoldable pub budget_lease : String → String → AgentRef → ℕ → Result Error BudgetLease
budget_lease lease_id group callee deadline = do
  guard (is_identifier lease_id) value_error
  guard (is_identifier group) value_error
  ok (record {
    lease_id = lease_id;
    execution_group_id = group;
    callee = callee;
    absolute_deadline = deadline;
  })

-- `_assert_live`
unfoldable pub assert_live : ℕ → ExecutionGroupBudgetState → Result Error (Unit {0})
assert_live now s =
    guard (not s.cancelled) (budget_exceeded execution_group_cancelled)
    >> guard (ltb now s.absolute_deadline) (budget_exceeded execution_group_timeout)

abbrev pub is_status_active : LeaseStatus → Bool
is_status_active active = true
is_status_active _ = false

adopt_record :
    ExecutionGroupBudgetState
    → String
    → AgentRef
    → Option StoredBudgetLease
    → Result Error (Option BudgetLease)
adopt_record s lease_id callee none = ok none
adopt_record s lease_id callee (some r) = do
  guard (str_eq r.callee_key (str callee)) (budget_exceeded budget_lease_identity_mismatch)
  guard (is_status_active r.status) (budget_exceeded budget_lease_not_active)
  lease ← budget_lease lease_id s.execution_group_id callee s.absolute_deadline
  ok (some lease)

-- `_adopt_active_lease`
unfoldable pub adopt_active_lease :
    ExecutionGroupBudgetState → String → AgentRef → Result Error (Option BudgetLease)
unfolding adopt_record
adopt_active_lease s lease_id callee = adopt_record s lease_id callee (lookup lease_id s.leases)

-- The dict writes of `reserve`, before `replace` validates the record.
abbrev pub with_new_lease :
    String → AgentRef → StoredBudgetLease → ExecutionGroupBudgetState → ExecutionGroupBudgetState
with_new_lease lease_id callee stored s = record s {
  revision = s.revision + 1;
  delegation_count = s.delegation_count + 1;
  per_agent_delegations =
      insert (str callee) (get_or 0 (lookup (str callee) s.per_agent_delegations) + 1)
        s.per_agent_delegations;
  leases = insert lease_id stored s.leases;
}

-- The rest of `reserve`, when no active lease was adopted. The group of the lease is the id of the state
-- that was loaded under it.
unfoldable pub open_lease : String → AgentRef → Operation BudgetLease
unfolding active_delegations stored_lease
open_lease lease_id callee s = do
  guard (ltb s.delegation_count s.limits.max_delegations)
      (budget_exceeded delegation_count_exceeded)
  guard
      (ltb (get_or 0 (lookup (str callee) s.per_agent_delegations))
        s.limits.max_delegations_per_agent)
      (budget_exceeded delegation_per_agent_exceeded)
  guard (ltb (active_delegations s) s.limits.max_parallel_delegations) retry_reservation
  stored ← stored_lease lease_id (str callee) active
  updated ← post_init (with_new_lease lease_id callee stored s)
  lease ← budget_lease lease_id s.execution_group_id callee s.absolute_deadline
  ok (replaced updated lease)

adopt_or_open : Option BudgetLease → String → AgentRef → Operation BudgetLease
adopt_or_open (some lease) lease_id callee s = ok (unchanged lease)
adopt_or_open none lease_id callee s = open_lease lease_id callee s

-- `reserve` of `reserve_delegation`
unfoldable pub reserve_delegation : ℕ → String → AgentRef → Operation BudgetLease
unfolding adopt_or_open
reserve_delegation now lease_id callee s = do
  assert_live now s
  adopted ← adopt_active_lease s lease_id callee
  adopt_or_open adopted lease_id callee s

-- `reserve` of `reserve_model_turn`
unfoldable pub reserve_model_turn : ℕ → ℕ → Operation (Unit {0})
reserve_model_turn now count s = do
  assert_live now s
  guard (leb (s.model_turns + count) s.limits.max_total_model_turns)
      (budget_exceeded execution_group_model_turns_exceeded)
  updated ← post_init (record s { revision = s.revision + 1; model_turns = s.model_turns + count })
  ok (replaced updated tt)

-- `reserve` of `reserve_tool_call`
unfoldable pub reserve_tool_call : ℕ → ℕ → Operation (Unit {0})
reserve_tool_call now count s = do
  assert_live now s
  guard (leb (s.tool_calls + count) s.limits.max_total_tool_calls)
      (budget_exceeded execution_group_tool_calls_exceeded)
  updated ← post_init (record s { revision = s.revision + 1; tool_calls = s.tool_calls + count })
  ok (replaced updated tt)

-- `_validate_count`
unfoldable pub validate_count : ℕ → Result Error (Unit {0})
validate_count count = guard (leb 1 count) value_error
