-- ===== src/Delegation/Budget/Atomicity.antt =====
-- moduagent/delegation/budget.py: `_mutate` under interference. Other clients may write the store
-- between the load and the swap of each attempt.
use moduagent.Base.{
  ℕ, zero, suc, ◌+◌, ◌<◌, ◌≡◌, String, true, false, none, some, Result, ok, raise, arith, lookup,
  insert, all_entries-lookup, eq_iff, ◌⊎◌, inl, inr, Option-cases, Result-cases,
}
use moduagent.Delegation.Budget.State.{
  ExecutionGroupBudgetState, Error, budget_exceeded, execution_group_not_initialized,
  budget_store_contention,
}
use moduagent.Delegation.Budget.Changes.{unchanged, replaced, Operation}
use moduagent.Delegation.Budget.Calls.{Call, perform}
use moduagent.Delegation.Budget.Outcomes.{perform-Effect}
use moduagent.Delegation.Budget.Invariant.{Effect-Follows}
use moduagent.Delegation.Budget.Store.{Store, compare_and_swap, Others, mutate}
use moduagent.Delegation.Budget.Steps.{
  Writes, Writes-trans, Writes-Newer, Newer, IsKeyed, own_name, Writes-IsKeyed,
}

-- A swap from a state that was loaded earlier either finds that very state and replaces it, or
-- finds that the group has moved on and writes nothing.
pub swap-cases :
    (id : String) (s t : ExecutionGroupBudgetState) (st : Store)
    → Newer id s st
    → t.execution_group_id ≡ id
    → t.revision ≡ s.revision + 1
    → ((lookup id st ≡ some s) × (compare_and_swap id s.revision t st ≡ ok (true, insert id t st)))
      ⊎ ((c : ExecutionGroupBudgetState) × (lookup id st ≡ some c)
          × (s.revision < c.revision)
          × (compare_and_swap id s.revision t st ≡ ok (false, st)))
unfolding compare_and_swap
swap-cases id s t st n own up = elim n.later [
  | inl same ↦ inl (ground arith, ground (arith, eq_iff t.execution_group_id id))
  | inr later ↦ inr (n.newest, n.stored, later, ground arith)
]

-- What a call of `_mutate` meets: with `n` attempts left it starts on the store `start`, and some
-- attempts later `m` are left, on the store `st`. An attempt is lost only because another client has
-- moved the group on, and the store then holds what the others wrote, and nothing of this call's.
pub data Meanwhile (o : Others) (id : String) : ℕ → Store → ℕ → Store → Type 0 where
  entered : {n : ℕ} {st : Store} → Meanwhile o id n st n st
  lost :
      {n m : ℕ} {start st : Store} (s c : ExecutionGroupBudgetState)
      → lookup id start ≡ some s
      → lookup id (o.before_swap n start) ≡ some c
      → s.revision < c.revision
      → Meanwhile o id n (o.while_asleep n (o.before_swap n start)) m st
      → Meanwhile o id (suc n) start m st

-- How a call of `_mutate` with `n` attempts on the store `start` can end. In each case but the last the
-- operation was applied, in the last attempt, to the state that the group had at that moment, and the
-- store is exactly what the other clients made of it, with this call's one write if there is one.
pub data Outcome {A : Type 0} (o : Others) (id : String) (op : Operation A) (n : ℕ) (start : Store)
    : Result Error A × Store → Type 0 where
  kept :
      {m : ℕ} {st : Store} (s : ExecutionGroupBudgetState) (a : A)
      → Meanwhile o id n start (suc m) st
      → lookup id st ≡ some s
      → op s ≡ ok (unchanged a)
      → Outcome o id op n start (ok a, st)
  wrote :
      {m : ℕ} {st : Store} (s t : ExecutionGroupBudgetState) (a : A)
      → Meanwhile o id n start (suc m) st
      → lookup id st ≡ some s
      → lookup id (o.before_swap m st) ≡ some s
      → op s ≡ ok (replaced t a)
      → Outcome o id op n start (ok a, insert id t (o.before_swap m st))
  refused :
      {m : ℕ} {st : Store} (s : ExecutionGroupBudgetState) (e : Error)
      → Meanwhile o id n start (suc m) st
      → lookup id st ≡ some s
      → op s ≡ raise e
      → Outcome o id op n start (raise e, st)
  missing :
      {m : ℕ} {st : Store}
      → Meanwhile o id n start (suc m) st
      → lookup id st ≡ none
      → Outcome o id op n start (raise (budget_exceeded execution_group_not_initialized), st)
  contended :
      {st : Store}
      → Meanwhile o id n start 0 st
      → Outcome o id op n start (raise (budget_exceeded budget_store_contention), st)

-- An attempt that was lost, before the rest of the call.
Outcome-lost :
    {A : Type 0} (o : Others) (id : String) (op : Operation A) (n : ℕ) (start : Store)
    (s c : ExecutionGroupBudgetState) {r : Result Error A × Store}
    → lookup id start ≡ some s
    → lookup id (o.before_swap n start) ≡ some c
    → s.revision < c.revision
    → Outcome o id op n (o.while_asleep n (o.before_swap n start)) r
    → Outcome o id op (suc n) start r
Outcome-lost o id op n start s c l k h (kept x a w p q) = kept x a (lost s c l k h w) p q
Outcome-lost o id op n start s c l k h (wrote x t a w p i q) = wrote x t a (lost s c l k h w) p i q
Outcome-lost o id op n start s c l k h (refused x e w p q) = refused x e (lost s c l k h w) p q
Outcome-lost o id op n start s c l k h (missing w p) = missing (lost s c l k h w) p
Outcome-lost o id op n start s c l k h (contended w) = contended (lost s c l k h w)

-- The other clients write by `create` and `compare_and_swap` alone.
pub record IsHonest (o : Others) : Type 0 where
  pub before_swap : (n : ℕ) (st : Store) → Writes st (o.before_swap n st)
  pub while_asleep : (n : ℕ) (st : Store) → Writes st (o.while_asleep n st)

-- An operation keeps the group's name and moves the revision by one.
abbrev pub Advances : {A : Type 0} → Operation A → Type 0
Advances {A} op =
    (s t : ExecutionGroupBudgetState) (a : A)
    → op s ≡ ok (replaced t a)
    → (t.execution_group_id ≡ s.execution_group_id) × (t.revision ≡ s.revision + 1)

-- However other clients interfere through `create` and `compare_and_swap`, a call of `_mutate` ends in
-- one of five ways. It returns with the operation applied to the state that the group had at that moment,
-- and its one write, if the operation asks for one, goes over that very state; or the operation's own error,
-- a missing group or contention is raised. The store is exactly what the others made of it, apart from that
-- one write, so a call that raises has written nothing; and an attempt is repeated only when another client
-- has moved the group on in between.
pub mutate-Outcome :
    {A : Type 0} (o : Others) (id : String) (op : Operation A) (n : ℕ) (st : Store)
    → IsHonest o
    → Advances op
    → IsKeyed st
    → Outcome o id op n st (mutate o id op n st)
unfolding mutate
mutate-Outcome o id op zero st h adv k = contended entered
mutate-Outcome o id op (suc n) st h adv k = elim (Option-cases (lookup id st)) [
  | inl e ↦ rw (e, mutate) (missing entered e)
  | inr (s, e) ↦ elim (Result-cases (op s)) [
    | inr (x, p) ↦ rw (e, mutate) (rw (p, mutate) (refused s x entered e p))
    | inl (unchanged a, p) ↦ rw (e, mutate) (rw (p, mutate) (kept s a entered e p))
    | inl (replaced t a, p) ↦
        let seen : Store = o.before_swap n st in
        let w : Writes st seen = h.before_swap n st in
        let w' : Writes st (o.while_asleep n seen) = Writes-trans w (h.while_asleep n seen) in
        let own : t.execution_group_id ≡ id = ground (
          arith,
          adv s t a p,
          eq_iff id s.execution_group_id,
          all_entries-lookup own_name id s st k e,
        ) in
        elim (swap-cases id s t seen (Writes-Newer id s e w) own (adv s t a p).1) [
          | inl (l, q) ↦
              rw (e, mutate) (rw (p, mutate) (rw (q, mutate) (wrote s t a entered e l p)))
          | inr (c, l, later, q) ↦
              rw (e, mutate)
                (rw (p, mutate)
                  (rw (q, mutate)
                    (Outcome-lost o id op n st s c e l later (
                      mutate-Outcome o id op n (o.while_asleep n seen) h adv
                        (Writes-IsKeyed k w')))))
        ]
  ]
]

pub perform-Advances : (c : Call) → Advances (perform c)
perform-Advances c s t a e =
    let f = Effect-Follows c s t (perform-Effect c s t a e).0 in (f.same_group, f.next_revision)
