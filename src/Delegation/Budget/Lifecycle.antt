-- ===== src/Delegation/Budget/Lifecycle.antt =====
-- moduagent/delegation/budget.py: the life of a lease over any sequence of calls, and of a group
-- that was cancelled.
use moduagent.Base.{
  ℕ, ◌≤◌, ◌≡◌, ◌≢◌, refl, sym, ap, ◌∙◌, String, true, false, some, ok, raise, arith, List, [], ◌∷◌,
  Dict, lookup, lookup-insert, eq_iff, eq_refl, all_entries, length,
}
use moduagent.Delegation.Models.{AgentRef, BudgetLease, str}
use moduagent.Delegation.Budget.State.{
  ExecutionGroupBudgetState, StoredBudgetLease, active, completed, released, UsageValue,
  normalize_usage, active_count, is_own_key, budget_exceeded, execution_group_cancelled,
}
use moduagent.Delegation.Budget.Changes.{
  unchanged, replaced, assert_live, reserve_delegation, reserve_model_turn, reserve_tool_call,
}
use moduagent.Delegation.Budget.Closing.{
  cancel_leases, cancelled_status, lease_record, complete, cancel,
}
use moduagent.Delegation.Budget.Calls.{
  Call, reserves_delegation, reserves_model_turn, reserves_tool_call, completes, releases, cancels,
  perform, step, run, closed, Reply,
}
use moduagent.Delegation.Budget.Validity.{IsValid, post_init-valid}
use moduagent.Delegation.Budget.Outcomes.{Effect, perform-Effect, new_lease, with_cancelled}
use moduagent.Delegation.Budget.Invariant.{run_induction, Effect-Follows}

pub lookup-cancel_leases :
    (k : String) (r : StoredBudgetLease) (d : Dict StoredBudgetLease)
    → lookup k d ≡ some r
    → lookup k (cancel_leases d) ≡ some (record r { status = cancelled_status r.status })
unfolding lookup cancel_leases
lookup-cancel_leases k r [] e = cc
lookup-cancel_leases k r ((j, l) ∷ d) e = ground (arith, lookup-cancel_leases k r d)

-- The lease `k` has the record `r`, which is closed.
record IsClosed (k : String) (r : StoredBudgetLease) (s : ExecutionGroupBudgetState) : Type 0 where
  stored : lookup k s.leases ≡ some r
  inactive : r.status ≢ active

Effect-IsClosed :
    (k : String) (r : StoredBudgetLease) (c : Call) (s t : ExecutionGroupBudgetState)
    → IsClosed k r s
    → Effect c s t
    → IsClosed k r t
Effect-IsClosed k r (reserves_delegation now id callee) s t h e =
    ground (arith, lookup-insert id k (new_lease id callee) s.leases, eq_iff id k)
Effect-IsClosed k r (reserves_model_turn now n) s t h e = ground arith
Effect-IsClosed k r (reserves_tool_call now n) s t h e = ground arith
Effect-IsClosed k r (completes usage lease) s t h (q, u, held, normal, written) = ground (
  arith,
  lookup-insert lease.lease_id k (record q { status = completed }) s.leases,
  eq_iff lease.lease_id k,
)
Effect-IsClosed k r (releases lease) s t h (q, held, written) = ground (
  arith,
  lookup-insert lease.lease_id k (record q { status = released }) s.leases,
  eq_iff lease.lease_id k,
)
Effect-IsClosed k r cancels s t h e = ground (arith, lookup-cancel_leases k r s.leases)

-- Once a lease is completed, released or cancelled, no sequence of calls changes its record.
pub run-closed :
    (k : String) (r : StoredBudgetLease) (s : ExecutionGroupBudgetState) (cs : List Call)
    → lookup k s.leases ≡ some r
    → r.status ≢ active
    → lookup k (run s cs).leases ≡ some r
run-closed k r s cs e h =
    (run_induction (IsClosed k r) s cs (λ c u t i x v. Effect-IsClosed k r c u t i x)
      (record { stored = e; inactive = h })).stored

pub run-execution_group_id :
    (s : ExecutionGroupBudgetState) (cs : List Call)
    → (run s cs).execution_group_id ≡ s.execution_group_id
run-execution_group_id s cs =
    run_induction (λ t. t.execution_group_id ≡ s.execution_group_id) s cs
      (λ c u t i e v. (Effect-Follows c u t e).same_group ∙ i) refl

-- Completing an already completed lease reports that nothing was done.
complete_again :
    (usage : Dict ℕ) (lease : BudgetLease) (r : StoredBudgetLease) (s : ExecutionGroupBudgetState)
    → lease.execution_group_id ≡ s.execution_group_id
    → lookup lease.lease_id s.leases ≡ some r
    → r.callee_key ≡ str lease.callee
    → r.status ≡ completed
    → complete usage lease s ≡ ok (unchanged false)
unfolding complete lease_record
complete_again usage lease r s g e c h = ground (
  arith,
  eq_iff lease.execution_group_id s.execution_group_id,
  eq_iff r.callee_key (str lease.callee),
)

-- A lease is charged at most once: after the call that completed it, and any calls that follow, a
-- further completion with well-formed usage stores nothing and answers false.
pub completes_once :
    (usage usage' : Dict UsageValue) (u' : Dict ℕ) (lease : BudgetLease)
    (s t : ExecutionGroupBudgetState) (reply : Reply) (cs : List Call)
    → perform (completes usage lease) s ≡ ok (replaced t reply)
    → normalize_usage usage' ≡ ok u'
    → perform (completes usage' lease) (run t cs) ≡ ok (unchanged (closed false))
unfolding perform
completes_once usage usage' u' lease s t reply cs e n =
    let ((r, u, held, _, written), _) = perform-Effect (completes usage lease) s t reply e in
    let now_completed : StoredBudgetLease = record r { status = completed } in
    let stored : lookup lease.lease_id t.leases ≡ some now_completed = ground (
      arith,
      lookup-insert lease.lease_id lease.lease_id now_completed s.leases,
      eq_refl lease.lease_id,
    ) in
    let again : complete u' lease (run t cs) ≡ ok (unchanged false) =
      complete_again u' lease now_completed (run t cs)
        (held.same_group
          ∙ sym (run-execution_group_id t cs ∙ ap (λ x. x.execution_group_id) written))
        (run-closed lease.lease_id now_completed t cs stored (λ x. cc)) held.same_callee refl in
    rw (n, again, perform) refl

active_count-pos :
    (k : String) (r : StoredBudgetLease) (d : Dict StoredBudgetLease)
    → lookup k d ≡ some r
    → r.status ≡ active
    → 1 ≤ active_count d
unfolding lookup
active_count-pos k r [] e a = cc
active_count-pos k r ((j, l) ∷ d) e a = ground (arith, active_count-pos k r d)

pub active_count-cancel_leases : (d : Dict StoredBudgetLease) → active_count (cancel_leases d) ≡ 0
unfolding cancel_leases
active_count-cancel_leases [] = refl
active_count-cancel_leases ((k, l) ∷ d) = ground (arith, active_count-cancel_leases d)

pub length-cancel_leases : (d : Dict StoredBudgetLease) → length (cancel_leases d) ≡ length d
unfolding cancel_leases
length-cancel_leases [] = refl
length-cancel_leases ((k, l) ∷ d) = omega (arith, length-cancel_leases d)

pub own_key-cancel_leases :
    (d : Dict StoredBudgetLease)
    → all_entries is_own_key (cancel_leases d) ≡ all_entries is_own_key d
unfolding cancel_leases
own_key-cancel_leases [] = refl
own_key-cancel_leases ((k, l) ∷ d) = rw (own_key-cancel_leases d) refl

pub with_cancelled-IsValid :
    (s : ExecutionGroupBudgetState) → IsValid s → IsValid (with_cancelled s)
with_cancelled-IsValid s v = ground (
  arith,
  active_count-cancel_leases s.leases,
  length-cancel_leases s.leases,
  own_key-cancel_leases s.leases,
)

pub record IsDead (s : ExecutionGroupBudgetState) : Type 0 where
  pub stopped : s.cancelled ≡ true
  pub idle : active_count s.leases ≡ 0

Effect-IsDead : (c : Call) (s t : ExecutionGroupBudgetState) → IsDead s → Effect c s t → IsDead t
Effect-IsDead (reserves_delegation now id callee) s t h e = ground arith
Effect-IsDead (reserves_model_turn now n) s t h e = ground arith
Effect-IsDead (reserves_tool_call now n) s t h e = ground arith
Effect-IsDead (completes usage lease) s t h (q, u, held, normal, written) =
    ground (arith, active_count-pos lease.lease_id q s.leases)
Effect-IsDead (releases lease) s t h (q, held, written) =
    ground (arith, active_count-pos lease.lease_id q s.leases)
Effect-IsDead cancels s t h e = ground (arith, active_count-cancel_leases s.leases)

step_cancels : (s : ExecutionGroupBudgetState) → IsValid s → step s cancels ≡ with_cancelled s
unfolding step cancel
step_cancels s v = rw (post_init-valid (with_cancelled s) (with_cancelled-IsValid s v)) refl

-- Every reservation of a group is refused as cancelled.
abbrev pub Refuses : ExecutionGroupBudgetState → Type 0
Refuses s =
    (now n : ℕ) (id : String) (callee : AgentRef)
    → (reserve_model_turn now n s ≡ raise (budget_exceeded execution_group_cancelled))
      × (reserve_tool_call now n s ≡ raise (budget_exceeded execution_group_cancelled))
      × (reserve_delegation now id callee s ≡ raise (budget_exceeded execution_group_cancelled))

IsDead-Refuses : (s : ExecutionGroupBudgetState) → IsDead s → Refuses s
unfolding reserve_model_turn reserve_tool_call reserve_delegation assert_live
IsDead-Refuses s d now n id callee = (ground arith, ground arith, ground arith)

-- Cancelling a valid group is final: after it and any calls that follow, the group is cancelled,
-- has no active lease, and refuses every reservation.
pub cancels_for_good :
    (s : ExecutionGroupBudgetState) (cs : List Call)
    → IsValid s
    → IsDead (run (step s cancels) cs) × Refuses (run (step s cancels) cs)
cancels_for_good s cs v =
    let dead : IsDead (run (step s cancels) cs) =
      run_induction IsDead (step s cancels) cs (λ c u t i e _. Effect-IsDead c u t i e)
        (rw (step_cancels s v)
          (record { stopped = refl; idle = active_count-cancel_leases s.leases })) in
    (dead, IsDead-Refuses _ dead)
