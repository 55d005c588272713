-- ===== src/Delegation/Budget/Booking.antt =====
-- moduagent/delegation/budget.py: the entries that a call books in the group's account, read back one
-- key at a time.
use moduagent.Base.{
  ℕ, ◌+◌, ◌≤◌, ◌<◌, ◌≡◌, ◌≢◌, refl, String, true, none, some, ok, arith, [], ◌∷◌, eq_iff, Dict,
  lookup, lookup-insert, str_eq, if◌then◌else◌,
}
use moduagent.Delegation.Models.{AgentRef, BudgetLease, str}
use moduagent.Delegation.Budget.State.{
  active, completed, released, cancelled, LeaseStatus, StoredBudgetLease, ExecutionGroupBudgetState,
  active_count, is_active,
}
use moduagent.Delegation.Budget.Changes.{replaced}
use moduagent.Delegation.Budget.Closing.{cancel_leases}
use moduagent.Delegation.Budget.Calls.{
  Call, reserves_delegation, reserves_model_turn, reserves_tool_call, completes, releases, cancels,
  Reply, perform,
}
use moduagent.Delegation.Budget.Outcomes.{
  Effect, perform-Effect, IsLive, Opened, Held, with_model_turns, with_tool_calls,
}
use moduagent.Delegation.Budget.Validity.{IsValid}
use moduagent.Delegation.Budget.Usage.{charged, reported, charged-completed}
use moduagent.Delegation.Budget.Lifecycle.{lookup-cancel_leases}

abbrev pub one_if_active : LeaseStatus → ℕ
one_if_active active = 1
one_if_active completed = 0
one_if_active released = 0
one_if_active cancelled = 0

-- The active leases, counted.
abbrev pub running_count : Dict StoredBudgetLease → ℕ
running_count [] = 0
running_count ((k, l) ∷ rest) = one_if_active l.status + running_count rest

is_active-one : (status : LeaseStatus) → one_if_active status ≡ is_active status
is_active-one active = refl
is_active-one completed = refl
is_active-one released = refl
is_active-one cancelled = refl

running_count_lem : (d : Dict StoredBudgetLease) → running_count d ≡ active_count d
running_count_lem [] = refl
running_count_lem ((k, l) ∷ rest) = omega (arith, is_active-one l.status, running_count_lem rest)

-- One lease has a new status, and the others are as they were.
abbrev pub Restated :
    BudgetLease
    → StoredBudgetLease
    → LeaseStatus
    → Dict StoredBudgetLease
    → Dict StoredBudgetLease
    → Type 0
Restated lease r status before after =
    (k : String)
    → lookup k after
      ≡ (if str_eq lease.lease_id k then some (record r { status = status }) else lookup k before)

-- Each active lease is cancelled, and the others are as they were.
pub record Cancelled (before after : Dict StoredBudgetLease) : Type 0 where
  stops :
      (k : String) (r : StoredBudgetLease)
      → lookup k before ≡ some r
      → r.status ≡ active
      → lookup k after ≡ some (record r { status = cancelled })
  keeps :
      (k : String) (r : StoredBudgetLease)
      → lookup k before ≡ some r
      → r.status ≢ active
      → lookup k after ≡ some r
  adds_none : (k : String) → lookup k before ≡ none → lookup k after ≡ none

-- A lease is opened under a fresh id, with room under the three limits, and the callee's count and the
-- total count grow by one.
pub record Granted (id : String) (callee : AgentRef) (s t : ExecutionGroupBudgetState)
    : Type 0 where
  fresh : lookup id s.leases ≡ none
  count_free : s.delegation_count < s.limits.max_delegations
  agent_free : charged (str callee) s.per_agent_delegations < s.limits.max_delegations_per_agent
  parallel_free : running_count s.leases < s.limits.max_parallel_delegations
  lease :
      (k : String)
      → lookup k t.leases ≡ (
          if str_eq id k
          then some (record { lease_id = id; callee_key = str callee; status = active })
          else lookup k s.leases)
  agents :
      (k : String)
      → charged k t.per_agent_delegations
        ≡ charged k s.per_agent_delegations + (if str_eq (str callee) k then 1 else 0)
  rest : t ≡ record s {
    revision = s.revision + 1;
    delegation_count = s.delegation_count + 1;
    per_agent_delegations = t.per_agent_delegations;
    leases = t.leases;
  }

-- What a call that stores a new state has booked.
abbrev pub Booked : Call → ExecutionGroupBudgetState → ExecutionGroupBudgetState → Type 0
Booked (reserves_delegation now id callee) s t = IsLive now s × Granted id callee s t
Booked (reserves_model_turn now n) s t = IsLive now s × (1 ≤ n) × (t ≡ with_model_turns n s)
Booked (reserves_tool_call now n) s t = IsLive now s × (1 ≤ n) × (t ≡ with_tool_calls n s)
Booked (completes usage lease) s t =
    (r : StoredBudgetLease) × Held lease r s
    × Restated lease r completed s.leases t.leases
    × ((k : String) → charged k t.usage ≡ charged k s.usage + reported k usage 0)
    × (t ≡ record s { revision = s.revision + 1; leases = t.leases; usage = t.usage })
Booked (releases lease) s t =
    (r : StoredBudgetLease) × Held lease r s
    × Restated lease r released s.leases t.leases
    × (t ≡ record s { revision = s.revision + 1; leases = t.leases })
Booked cancels s t =
    Cancelled s.leases t.leases
    × (t ≡ record s { revision = s.revision + 1; cancelled = true; leases = t.leases })

Opened-Granted :
    (id : String) (callee : AgentRef) (s t : ExecutionGroupBudgetState)
    → Opened id callee s t
    → Granted id callee s t
Opened-Granted id callee s t o = record {
  fresh = o.fresh;
  count_free = o.count_free;
  agent_free = o.agent_free;
  parallel_free = omega (arith, o.parallel_free, running_count_lem s.leases);
  lease = λ k. rw o.written (lookup-insert id k _ s.leases);
  agents = λ k. ground (
    arith,
    o.written,
    eq_iff (str callee) k,
    lookup-insert (str callee) k (charged (str callee) s.per_agent_delegations + 1)
        s.per_agent_delegations,
  );
  rest = rw o.written refl;
}

lookup-cancel_leases-none :
    (k : String) (d : Dict StoredBudgetLease)
    → lookup k d ≡ none
    → lookup k (cancel_leases d) ≡ none
unfolding lookup cancel_leases
lookup-cancel_leases-none k [] e = refl
lookup-cancel_leases-none k ((j, l) ∷ d) e = ground (arith, lookup-cancel_leases-none k d)

cancel_leases-Cancelled : (d : Dict StoredBudgetLease) → Cancelled d (cancel_leases d)
cancel_leases-Cancelled d = record {
  stops = λ k r h a. ground (arith, lookup-cancel_leases k r d h);
  keeps = λ k r h a. ground (arith, lookup-cancel_leases k r d h);
  adds_none = λ k h. lookup-cancel_leases-none k d h;
}

Effect-Booked : (c : Call) (s t : ExecutionGroupBudgetState) → Effect c s t → Booked c s t
Effect-Booked (reserves_delegation now id callee) s t (live, o) =
    (live, Opened-Granted id callee s t o)
Effect-Booked (reserves_model_turn now n) s t e = e
Effect-Booked (reserves_tool_call now n) s t e = e
Effect-Booked (completes usage lease) s t (r, u, held, normal, written) = (
  r,
  held,
  λ k. rw written (lookup-insert lease.lease_id k _ s.leases),
  λ k. rw written (charged-completed k usage s.usage u normal),
  rw written refl,
)
Effect-Booked (releases lease) s t (r, held, written) =
    (r, held, λ k. rw written (lookup-insert lease.lease_id k _ s.leases), rw written refl)
Effect-Booked cancels s t written = (rw written (cancel_leases-Cancelled s.leases), rw written refl)

-- A call that stores a new state was entitled to, and books exactly its entries. A reservation was made in
-- time, under the limits it touches, with a fresh lease and one more delegation of its callee, or with its
-- count added. A completion or a release was of an active lease, and changes that lease's status alone. A
-- completion also adds, under each key, the amount that was reported. A cancellation cancels each active
-- lease and no other. Everything else is as it was, the revision is the next one, and the state is valid.
pub perform-Booked :
    (c : Call) (s t : ExecutionGroupBudgetState) (reply : Reply)
    → perform c s ≡ ok (replaced t reply)
    → Booked c s t × IsValid t
perform-Booked c s t reply e =
    let (effect, valid) = perform-Effect c s t reply e in (Effect-Booked c s t effect, valid)
