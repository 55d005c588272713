-- ===== src/Delegation/Budget/Ensure.antt =====
-- moduagent/delegation/budget.py: `ensure_group`, which creates a group's state or agrees to the one
-- that is there.
use moduagent.Base.{
  subst, ℕ, ◌+◌, ◌≡◌, refl, String, Bool, true, ◌&&◌, Option, none, some, Result, ok, raise, arith,
  get_or, guard, ◌>>◌, lookup, lookup-insert, eq_refl, Option-cases, if◌then◌else◌, is_empty, ◌==◌,
  inl, inr,
}
use moduagent.Delegation.Models.{ExecutionGroupLimits}
use moduagent.Delegation.Budget.State.{
  ExecutionGroupBudgetState, Error, budget_exceeded, value_error, execution_group_contract_mismatch,
  budget_store_contention, post_init,
}
use moduagent.Delegation.Budget.Invariant.{new_group}
use moduagent.Delegation.Budget.Validity.{post_init-cases}
use moduagent.Delegation.Budget.Store.{Store, create}

-- `existing.limits == limits`, a dataclass comparison
unfoldable pub equal_limits : ExecutionGroupLimits → ExecutionGroupLimits → Bool
equal_limits a b =
    a.max_depth == b.max_depth
    && a.max_delegations == b.max_delegations
    && a.max_parallel_delegations == b.max_parallel_delegations
    && a.max_delegations_per_agent == b.max_delegations_per_agent
    && a.max_total_model_turns == b.max_total_model_turns
    && a.max_total_tool_calls == b.max_total_tool_calls
    && a.timeout == b.timeout

same_deadline : ℕ → Option ℕ → Bool
same_deadline d none = true
same_deadline d (some requested) = d == requested

-- The contract that a caller's limits and deadline must meet.
agree :
    ExecutionGroupLimits
    → Option ℕ
    → ExecutionGroupBudgetState
    → Result Error ExecutionGroupBudgetState
unfolding equal_limits same_deadline
agree limits requested existing =
    guard
      (equal_limits existing.limits limits && same_deadline existing.absolute_deadline requested)
      (budget_exceeded execution_group_contract_mismatch)
    >> ok existing

agree_after_race :
    ExecutionGroupLimits
    → Option ℕ
    → Option ExecutionGroupBudgetState
    → Result Error ExecutionGroupBudgetState
unfolding agree
agree_after_race limits requested none = raise (budget_exceeded budget_store_contention)
agree_after_race limits requested (some existing) = agree limits requested existing

create_or_agree :
    (Store → Store)
    → ExecutionGroupLimits
    → Option ℕ
    → ExecutionGroupBudgetState
    → Bool × Store
    → Result Error ExecutionGroupBudgetState × Store
unfolding agree_after_race
create_or_agree late limits requested candidate (made, st) =
    let seen = late st in
    if made
    then (ok candidate, st)
    else (agree_after_race limits requested (lookup candidate.execution_group_id seen), seen)

start_group :
    (others late : Store → Store)
    → ExecutionGroupLimits
    → Option ℕ
    → Result Error ExecutionGroupBudgetState
    → Store
    → Result Error ExecutionGroupBudgetState × Store
unfolding create_or_agree
start_group others late limits requested (raise e) st = (raise e, st)
start_group others late limits requested (ok candidate) st =
    create_or_agree late limits requested candidate (create candidate (others st))

ensure_loaded :
    (others late : Store → Store)
    → ℕ
    → String
    → ExecutionGroupLimits
    → Option ℕ
    → Store
    → Option ExecutionGroupBudgetState
    → Result Error ExecutionGroupBudgetState × Store
unfolding agree start_group
ensure_loaded others late now id limits requested st (some existing) =
    (agree limits requested existing, st)
ensure_loaded others late now id limits requested st none =
    start_group others late limits requested
      (post_init (new_group id limits (get_or (now + limits.timeout) requested))) st

-- `ensure_group`; `others` is what other clients do between the load and the creation, and `late` what
-- they do between a creation that failed and the second load.
unfoldable pub ensure_group :
    (others late : Store → Store)
    → ℕ
    → String
    → ExecutionGroupLimits
    → Option ℕ
    → Store
    → Result Error ExecutionGroupBudgetState × Store
unfolding ensure_loaded
ensure_group others late now id limits requested st =
    if is_empty id
    then (raise value_error, st)
    else ensure_loaded others late now id limits requested st (lookup id st)

equal_limits-eq : (a b : ExecutionGroupLimits) → equal_limits a b ≡ true → a ≡ b
unfolding equal_limits
equal_limits-eq a b e = ground arith

same_deadline-eq :
    (d e : ℕ) (requested : Option ℕ) → same_deadline d requested ≡ true → requested ≡ some e → d ≡ e
unfolding same_deadline
same_deadline-eq d e requested h k = ground arith

pub record Agreed (id : String) (limits : ExecutionGroupLimits) (requested : Option ℕ)
    (s : ExecutionGroupBudgetState) (st : Store) : Type 0 where
  pub same_limits : s.limits ≡ limits
  pub meets_deadline : (d : ℕ) → requested ≡ some d → s.absolute_deadline ≡ d
  pub stored : lookup id st ≡ some s

module _ (others late : Store → Store) (now : ℕ) (id : String) (limits : ExecutionGroupLimits)
    (requested : Option ℕ) where
  agree-Agreed :
      (x s : ExecutionGroupBudgetState) (st : Store)
      → lookup id st ≡ some x
      → agree limits requested x ≡ ok s
      → Agreed id limits requested s st
  unfolding agree
  agree-Agreed x s st l e = record {
    same_limits = ground (arith, equal_limits-eq x.limits limits);
    meets_deadline = λ d k. ground (arith, same_deadline-eq x.absolute_deadline d requested);
    stored = ground arith;
  }

  agree_after_race-Agreed :
      (s : ExecutionGroupBudgetState) (st : Store)
      → agree_after_race limits requested (lookup id st) ≡ ok s
      → Agreed id limits requested s st
  unfolding agree_after_race
  agree_after_race-Agreed s st e = elim (Option-cases (lookup id st)) [
    | inl absent ↦ absurd (ground arith)
    | inr (x, held) ↦ agree-Agreed x s st held (ground arith)
  ]

  requested_deadline : (d : ℕ) → requested ≡ some d → get_or (now + limits.timeout) requested ≡ d
  requested_deadline d k = rw k refl

  create_or_agree-Agreed :
      (s : ExecutionGroupBudgetState) (st st' : Store)
      → create_or_agree late limits requested
          (new_group id limits (get_or (now + limits.timeout) requested))
          (create (new_group id limits (get_or (now + limits.timeout) requested)) st)
        ≡ (ok s, st')
      → Agreed id limits requested s st'
  unfolding create_or_agree create new_group
  create_or_agree-Agreed s st st' e = elim (Option-cases (lookup id st)) [
    | inl absent ↦ record {
      same_limits = ground arith;
      meets_deadline = λ d k. ground (arith, requested_deadline d k);
      stored = ground (arith, eq_refl id, lookup-insert id id fresh st);
    }
    | inr (x, held) ↦
        subst (Agreed id limits requested s) (ground arith)
          (agree_after_race-Agreed s (late st) (ground arith))
  ]
    where
      fresh : ExecutionGroupBudgetState
      fresh = new_group id limits (get_or (now + limits.timeout) requested)

  -- Whatever other clients do between its load and its creation, and before a second load, a caller of `ensure_group` that
  -- gets a state gets the one that the store then has for the group, with exactly the limits that it
  -- asked for, and with its deadline if it named one.
  pub ensure_group-Agreed :
      (s : ExecutionGroupBudgetState) (st st' : Store)
      → ensure_group others late now id limits requested st ≡ (ok s, st')
      → Agreed id limits requested s st'
  unfolding ensure_group
  ensure_group-Agreed s st st' e = elim (Option-cases (lookup id st)) [
    | inr (x, held) ↦ agree-Agreed x s st' (ground arith) (ground arith)
    | inl absent ↦ create_or_agree-Agreed s (others st) st' (ground (arith, post_init-cases fresh))
  ]
    where
      fresh : ExecutionGroupBudgetState
      fresh = new_group id limits (get_or (now + limits.timeout) requested)
