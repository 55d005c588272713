-- ===== src/Delegation/Budget/Outcomes.antt =====
-- moduagent/delegation/budget.py: what a callback has checked and written when it returns a new
-- state.
use moduagent.Base.{
  ℕ, ◌+◌, ◌≤◌, ◌<◌, ◌≡◌, String, Bool, true, false, none, some, Result, ok, raise, arith, leb,
  leb→le, eq_iff, guard-ok, >>=-ok-inv, Dict, lookup, get_or, Result-cases, inl, inr,
}
use moduagent.Delegation.Models.{AgentRef, BudgetLease, str, is_identifier}
use moduagent.Delegation.Budget.State.{
  active, completed, released, StoredBudgetLease, ExecutionGroupBudgetState, active_count,
  normalize_usage, Error, value_error,
}
use moduagent.Delegation.Budget.Changes.{
  Update, unchanged, replaced, open_lease, with_new_lease, reserve_delegation, reserve_model_turn,
  reserve_tool_call, assert_live, validate_count, adopt_active_lease,
}
use moduagent.Delegation.Budget.Closing.{
  lease_record, complete, release, cancel, with_status, add_usage, cancel_leases,
}
use moduagent.Delegation.Budget.Calls.{
  Call, reserves_delegation, reserves_model_turn, reserves_tool_call, completes, releases, cancels,
  Reply, granted, reply_with, perform,
}
use moduagent.Delegation.Budget.Validity.{IsValid, post_init-cases}

abbrev pub new_lease : String → AgentRef → StoredBudgetLease
new_lease id callee = record { lease_id = id; callee_key = str callee; status = active }

-- The group is neither cancelled nor past its deadline.
pub record IsLive (now : ℕ) (s : ExecutionGroupBudgetState) : Type 0 where
  pub running : s.cancelled ≡ false
  pub early : now < s.absolute_deadline

pub record Opened (id : String) (callee : AgentRef) (s t : ExecutionGroupBudgetState) : Type 0 where
  pub written : t ≡ with_new_lease id callee (new_lease id callee) s
  pub fresh : lookup id s.leases ≡ none
  pub count_free : s.delegation_count < s.limits.max_delegations
  pub agent_free :
      get_or 0 (lookup (str callee) s.per_agent_delegations) < s.limits.max_delegations_per_agent
  pub parallel_free : active_count s.leases < s.limits.max_parallel_delegations

pub record Held (lease : BudgetLease) (r : StoredBudgetLease) (s : ExecutionGroupBudgetState)
    : Type 0 where
  pub same_group : lease.execution_group_id ≡ s.execution_group_id
  pub stored : lookup lease.lease_id s.leases ≡ some r
  pub same_callee : r.callee_key ≡ str lease.callee
  pub is_open : r.status ≡ active

abbrev pub with_model_turns : ℕ → ExecutionGroupBudgetState → ExecutionGroupBudgetState
with_model_turns n s = record s { revision = s.revision + 1; model_turns = s.model_turns + n }

abbrev pub with_tool_calls : ℕ → ExecutionGroupBudgetState → ExecutionGroupBudgetState
with_tool_calls n s = record s { revision = s.revision + 1; tool_calls = s.tool_calls + n }

abbrev pub with_completed :
    Dict ℕ → BudgetLease → StoredBudgetLease → ExecutionGroupBudgetState → ExecutionGroupBudgetState
with_completed usage lease r s = record (with_status lease r completed s) {
  usage = add_usage s.usage usage;
}

abbrev pub with_cancelled : ExecutionGroupBudgetState → ExecutionGroupBudgetState
with_cancelled s = record s {
  revision = s.revision + 1;
  cancelled = true;
  leases = cancel_leases s.leases;
}

-- The change that a call makes when it stores a new state.
abbrev pub Effect : Call → ExecutionGroupBudgetState → ExecutionGroupBudgetState → Type 0
Effect (reserves_delegation now id callee) s t = IsLive now s × Opened id callee s t
Effect (reserves_model_turn now n) s t = IsLive now s × (1 ≤ n) × (t ≡ with_model_turns n s)
Effect (reserves_tool_call now n) s t = IsLive now s × (1 ≤ n) × (t ≡ with_tool_calls n s)
Effect (completes usage lease) s t =
    (r : StoredBudgetLease) × (u : Dict ℕ) × Held lease r s
    × (normalize_usage usage ≡ ok u)
    × (t ≡ with_completed u lease r s)
Effect (releases lease) s t =
    (r : StoredBudgetLease) × Held lease r s × (t ≡ with_status lease r released s)
Effect cancels s t = t ≡ with_cancelled s

module _ (s t : ExecutionGroupBudgetState) where
  open_lease-Opened :
      (id : String) (callee : AgentRef) (lease : BudgetLease)
      → lookup id s.leases ≡ none
      → open_lease id callee s ≡ ok (replaced t lease)
      → Opened id callee s t × IsValid t
  unfolding open_lease
  open_lease-Opened id callee lease h e =
      ground (arith, post_init-cases (with_new_lease id callee (new_lease id callee) s))

  pub reserve_delegation-Opened :
      (now : ℕ) (id : String) (callee : AgentRef) (lease : BudgetLease)
      → reserve_delegation now id callee s ≡ ok (replaced t lease)
      → IsLive now s × Opened id callee s t × IsValid t
  unfolding reserve_delegation assert_live adopt_active_lease
  reserve_delegation-Opened now id callee lease e =
      ground (arith, open_lease-Opened id callee lease)

  reserve_model_turn-eq :
      (now n : ℕ) (u : Unit {0})
      → reserve_model_turn now n s ≡ ok (replaced t u)
      → IsLive now s × (t ≡ with_model_turns n s) × IsValid t
  unfolding reserve_model_turn assert_live
  reserve_model_turn-eq now n u e = ground (arith, post_init-cases (with_model_turns n s))

  reserve_tool_call-eq :
      (now n : ℕ) (u : Unit {0})
      → reserve_tool_call now n s ≡ ok (replaced t u)
      → IsLive now s × (t ≡ with_tool_calls n s) × IsValid t
  unfolding reserve_tool_call assert_live
  reserve_tool_call-eq now n u e = ground (arith, post_init-cases (with_tool_calls n s))

  cancel-eq : (u : Unit {0}) → cancel s ≡ ok (replaced t u) → (t ≡ with_cancelled s) × IsValid t
  unfolding cancel
  cancel-eq u e = ground (arith, post_init-cases (with_cancelled s))

  lease_record-Held :
      (lease : BudgetLease) (r : StoredBudgetLease)
      → lease_record s lease ≡ ok r
      → r.status ≡ active
      → Held lease r s
  unfolding lease_record
  lease_record-Held lease r e a = ground (
    arith,
    eq_iff lease.execution_group_id s.execution_group_id,
    eq_iff r.callee_key (str lease.callee),
  )

  complete-eq :
      (usage : Dict ℕ) (lease : BudgetLease) (b : Bool)
      → complete usage lease s ≡ ok (replaced t b)
      → (r : StoredBudgetLease) × Held lease r s
        × (b ≡ true)
        × (t ≡ with_completed usage lease r s)
        × IsValid t
  unfolding complete
  complete-eq usage lease b e = elim (Result-cases (lease_record s lease)) [
    | inr (x, p) ↦ ground arith
    | inl (r, p) ↦ (
      r,
      ground (arith, lease_record-Held lease r p),
      ground (arith, post_init-cases (with_completed usage lease r s)),
      ground (arith, post_init-cases (with_completed usage lease r s)),
      ground (arith, post_init-cases (with_completed usage lease r s)),
    )
  ]

  release-eq :
      (lease : BudgetLease) (u : Unit {0})
      → release lease s ≡ ok (replaced t u)
      → (r : StoredBudgetLease) × Held lease r s × (t ≡ with_status lease r released s) × IsValid t
  unfolding release
  release-eq lease u e = elim (Result-cases (lease_record s lease)) [
    | inr (x, p) ↦ ground arith
    | inl (r, p) ↦ (
      r,
      ground (arith, lease_record-Held lease r p),
      ground (arith, post_init-cases (with_status lease r released s)),
      ground (arith, post_init-cases (with_status lease r released s)),
    )
  ]

reply_with-replaced :
    {A : Type 0} (f : A → Reply) (r : Result Error (Update A)) {t : ExecutionGroupBudgetState}
    {reply : Reply}
    → reply_with f r ≡ ok (replaced t reply)
    → (a : A) × (r ≡ ok (replaced t a))
reply_with-replaced f (ok (unchanged a)) e = cc
reply_with-replaced f (ok (replaced u a)) e = (a, ground arith)
reply_with-replaced f (raise x) e = cc

-- A call that stores a new state makes its change and nothing else, and the state is valid.
pub perform-Effect :
    (c : Call) (s t : ExecutionGroupBudgetState) (reply : Reply)
    → perform c s ≡ ok (replaced t reply)
    → Effect c s t × IsValid t
unfolding perform validate_count
perform-Effect (reserves_delegation now id callee) s t reply e =
    let (_, p) = guard-ok (is_identifier id) value_error _ e in
    let (l, q) = reply_with-replaced granted (reserve_delegation now id callee s) p in
    let (live, opened, valid) = reserve_delegation-Opened s t now id callee l q in
    ((live, opened), valid)
perform-Effect (reserves_model_turn now n) s t reply e =
    let (counted, p) = guard-ok (leb 1 n) value_error _ e in
    let (u, q) = reply_with-replaced _ (reserve_model_turn now n s) p in
    let (live, written, valid) = reserve_model_turn-eq s t now n u q in
    ((live, leb→le 1 n counted, written), valid)
perform-Effect (reserves_tool_call now n) s t reply e =
    let (counted, p) = guard-ok (leb 1 n) value_error _ e in
    let (u, q) = reply_with-replaced _ (reserve_tool_call now n s) p in
    let (live, written, valid) = reserve_tool_call-eq s t now n u q in
    ((live, leb→le 1 n counted, written), valid)
perform-Effect (completes usage lease) s t reply e =
    let (u, normal, p) = >>=-ok-inv (normalize_usage usage) _ e in
    let (b, q) = reply_with-replaced _ _ p in
    let (r, held, _, written, valid) = complete-eq s t u lease b q in
    ((r, u, held, normal, written), valid)
perform-Effect (releases lease) s t reply e =
    let (u, p) = reply_with-replaced _ _ e in
    let (r, held, written, valid) = release-eq s t lease u p in ((r, held, written), valid)
perform-Effect cancels s t reply e = let (u, p) = reply_with-replaced _ _ e in cancel-eq s t u p
