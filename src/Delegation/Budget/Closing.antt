-- ===== src/Delegation/Budget/Closing.antt =====
-- moduagent/delegation/budget.py: the callbacks that close leases, and the checks of a lease that
-- a caller presents.
use moduagent.Base.{
  ℕ, ◌+◌, Bool, true, false, [], ◌∷◌, Option, none, some, Result, ok, raise, guard, ◌>>◌, ◌>>=◌,
  ◌==◌, Dict, str_eq, lookup, insert, get_or,
}
use moduagent.Delegation.Models.{str, BudgetLease}
use moduagent.Delegation.Budget.State.{
  budget_lease_not_active, budget_lease_deadline_mismatch, budget_lease_group_mismatch,
  budget_lease_not_found, Error, budget_exceeded, LeaseStatus, active, completed, released,
  cancelled, StoredBudgetLease, ExecutionGroupBudgetState, post_init,
}
use moduagent.Delegation.Budget.Changes.{Update, unchanged, replaced, Operation}

found_record : BudgetLease → Option StoredBudgetLease → Result Error StoredBudgetLease
found_record lease none = raise (budget_exceeded budget_lease_not_found)
found_record lease (some r) =
    guard (str_eq r.callee_key (str lease.callee)) (budget_exceeded budget_lease_not_found) >> ok r

-- `_lease_record`
unfoldable pub lease_record :
    ExecutionGroupBudgetState → BudgetLease → Result Error StoredBudgetLease
unfolding found_record
lease_record s lease =
    guard (str_eq lease.execution_group_id s.execution_group_id)
      (budget_exceeded budget_lease_group_mismatch)
    >> found_record lease (lookup lease.lease_id s.leases)

-- `inspect_lease`, on the state that was loaded.
unfoldable pub inspect_lease : ExecutionGroupBudgetState → BudgetLease → Result Error LeaseStatus
inspect_lease s lease = do
  guard (lease.absolute_deadline == s.absolute_deadline)
      (budget_exceeded budget_lease_deadline_mismatch)
  r ← lease_record s lease
  ok r.status

-- A write of one lease's status, with the next revision.
abbrev pub with_status :
    BudgetLease
    → StoredBudgetLease
    → LeaseStatus
    → ExecutionGroupBudgetState
    → ExecutionGroupBudgetState
with_status lease r status s = record s {
  revision = s.revision + 1;
  leases = insert lease.lease_id (record r { status = status }) s.leases;
}

-- `aggregate[key] = aggregate.get(key, 0) + value`, for each entry in turn.
unfoldable pub add_usage : Dict ℕ → Dict ℕ → Dict ℕ
add_usage aggregate [] = aggregate
add_usage aggregate ((k, v) ∷ rest) =
    add_usage (insert k (get_or 0 (lookup k aggregate) + v) aggregate) rest

complete_record :
    Dict ℕ
    → BudgetLease
    → ExecutionGroupBudgetState
    → StoredBudgetLease
    → LeaseStatus
    → Result Error (Update Bool)
complete_record usage lease s r completed = ok (unchanged false)
complete_record usage lease s r active = do
  updated ← post_init (record (with_status lease r completed s) { usage = add_usage s.usage usage })
  ok (replaced updated true)
complete_record usage lease s r _ = raise (budget_exceeded budget_lease_not_active)

-- `complete` of `_complete_lease_state`, with the normalized usage.
unfoldable pub complete : Dict ℕ → BudgetLease → Operation Bool
unfolding complete_record
complete usage lease s = lease_record s lease >>= λ r. complete_record usage lease s r r.status

release_record :
    BudgetLease
    → ExecutionGroupBudgetState
    → StoredBudgetLease
    → LeaseStatus
    → Result Error (Update (Unit {0}))
release_record lease s r active = do
  updated ← post_init (with_status lease r released s)
  ok (replaced updated tt)
release_record lease s r _ = ok (unchanged tt)

-- `release` of `release_lease`
unfoldable pub release : BudgetLease → Operation (Unit {0})
unfolding release_record
release lease s = lease_record s lease >>= λ r. release_record lease s r r.status

abbrev pub cancelled_status : LeaseStatus → LeaseStatus
cancelled_status active = cancelled
cancelled_status status = status

unfoldable pub cancel_leases : Dict StoredBudgetLease → Dict StoredBudgetLease
cancel_leases [] = []
cancel_leases ((k, l) ∷ rest) =
    (k, record l { status = cancelled_status l.status }) ∷ cancel_leases rest

-- `cancel` of `cancel_group`
unfoldable pub cancel : Operation (Unit {0})
cancel s = do
  updated ←
      post_init
        (record s { revision = s.revision + 1; cancelled = true; leases = cancel_leases s.leases })
  ok (replaced updated tt)
