-- ===== src/Delegation/Budget/Steps.antt =====
-- moduagent/delegation/budget.py: how the store changes under any clients that write it by `create`
-- and `compare_and_swap` alone.
use moduagent.Base.{
  ℕ, ◌+◌, ◌<◌, ◌≡◌, refl, String, Bool, true, some, ok, arith, lookup, insert, lookup-insert,
  all_entries, all_entries-insert, str_eq, eq_iff, eq_refl, ◌⊎◌, inl, inr, Option-cases, Bool-cases,
}
use moduagent.Delegation.Budget.State.{ExecutionGroupBudgetState}
use moduagent.Delegation.Budget.Store.{Store, create, compare_and_swap}

-- A write by some client.
pub data Write : Store → Store → Type 0 where
  created :
      {st st' : Store} (s : ExecutionGroupBudgetState) → create s st ≡ (true, st') → Write st st'
  swapped :
      {st st' : Store} (id : String) (expected : ℕ) (s : ExecutionGroupBudgetState)
      → compare_and_swap id expected s st ≡ ok (true, st')
      → Write st st'

pub data Writes (st : Store) : Store → Type 0 where
  here : Writes st st
  next : {st' st'' : Store} → Writes st st' → Write st' st'' → Writes st st''

pub Writes-trans : {r s t : Store} → Writes r s → Writes s t → Writes r t
Writes-trans u here = u
Writes-trans u (next v w) = next (Writes-trans u v) w

-- The state of a group afterwards is the same one, or one of a later revision.
pub record Newer (id : String) (s : ExecutionGroupBudgetState) (st : Store) : Type 0 where
  pub newest : ExecutionGroupBudgetState
  pub stored : lookup id st ≡ some newest
  pub later : (newest ≡ s) ⊎ (s.revision < newest.revision)

create-lookup :
    (s c : ExecutionGroupBudgetState) (id : String) (st st' : Store)
    → create s st ≡ (true, st')
    → lookup id st ≡ some c
    → lookup id st' ≡ some c
unfolding create
create-lookup s c id st st' e h =
    ground (arith, lookup-insert s.execution_group_id id s st, eq_iff s.execution_group_id id)

-- A successful swap replaced a state of the expected revision by one of the next.
pub swap-insert :
    (id : String) (expected : ℕ) (s : ExecutionGroupBudgetState) (st st' : Store)
    → compare_and_swap id expected s st ≡ ok (true, st')
    → (c : ExecutionGroupBudgetState) × (lookup id st ≡ some c)
      × (c.revision ≡ expected)
      × (s.revision ≡ expected + 1)
      × (s.execution_group_id ≡ id)
      × (st' ≡ insert id s st)
unfolding compare_and_swap
swap-insert id expected s st st' e = elim (Option-cases (lookup id st)) [
  | inl h ↦ ground arith
  | inr (c, h) ↦ (
    c,
    h,
    ground arith,
    ground arith,
    ground (arith, eq_iff s.execution_group_id id),
    ground arith,
  )
]

Write-Newer :
    {st st' : Store} (id : String) (s : ExecutionGroupBudgetState)
    → lookup id st ≡ some s
    → Write st st'
    → Newer id s st'
Write-Newer {st} {st'} id s h (created t e) = record {
  newest = s;
  stored = create-lookup t s id st st' e h;
  later = inl refl;
}
Write-Newer {st} {st'} id s h (swapped j n t e) =
    let (c, old, same, up, own, written) = swap-insert j n t st st' e in
    elim (Bool-cases (str_eq j id)) [
      | inl p ↦ record {
        newest = t;
        stored = ground (arith, lookup-insert j id t st);
        later = inr (ground (arith, eq_iff j id));
      }
      | inr p ↦ record {
        newest = s;
        stored = ground (arith, lookup-insert j id t st);
        later = inl refl;
      }
    ]

pub Writes-Newer :
    {st st' : Store} (id : String) (s : ExecutionGroupBudgetState)
    → lookup id st ≡ some s
    → Writes st st'
    → Newer id s st'
Writes-Newer id s h here = record { newest = s; stored = h; later = inl refl }
Writes-Newer id s h (next v w) =
    let n = Writes-Newer id s h v in
    let m = Write-Newer id n.newest n.stored w in
    record { newest = m.newest; stored = m.stored; later = ground arith }

abbrev pub own_name : String → ExecutionGroupBudgetState → Bool
own_name k s = str_eq k s.execution_group_id

-- Every group is stored under its own name.
abbrev pub IsKeyed : Store → Type 0
IsKeyed st = all_entries own_name st ≡ true

Write-IsKeyed : {st st' : Store} → IsKeyed st → Write st st' → IsKeyed st'
unfolding create
Write-IsKeyed {st} {st'} k (created s e) =
    ground
      (arith, eq_refl s.execution_group_id, all_entries-insert own_name s.execution_group_id s st k)
Write-IsKeyed {st} {st'} k (swapped id n s e) =
    let (c, old, same, up, own, written) = swap-insert id n s st st' e in
    ground (arith, eq_iff id s.execution_group_id, all_entries-insert own_name id s st k)

pub Writes-IsKeyed : {st st' : Store} → IsKeyed st → Writes st st' → IsKeyed st'
Writes-IsKeyed k here = k
Writes-IsKeyed k (next v w) = Write-IsKeyed (Writes-IsKeyed k v) w
