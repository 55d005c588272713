-- ===== src/Delegation/Budget/Store.antt =====
-- moduagent/delegation/budget.py: `InMemoryBudgetStateStore`, and the ledger's calls on a store
-- that other clients change too. Where the code awaits, other clients may run: what they do to the
-- store is an argument.
use moduagent.Base.{
  ℕ, zero, suc, ◌+◌, String, Bool, true, false, Option, none, some, Result, ok, raise, guard, ◌>>◌,
  if◌then◌else◌, ◌==◌, not, Dict, lookup, insert, str_eq, is_some,
}
use moduagent.Delegation.Budget.State.{
  Error, budget_exceeded, value_error, execution_group_not_initialized, budget_store_contention,
  ExecutionGroupBudgetState,
}
use moduagent.Delegation.Budget.Changes.{Update, unchanged, replaced, Operation}

abbrev pub Store : Type 0
Store = Dict ExecutionGroupBudgetState

-- `create`
unfoldable pub create : ExecutionGroupBudgetState → Store → Bool × Store
create s st =
    if is_some (lookup s.execution_group_id st)
    then (false, st)
    else (true, insert s.execution_group_id s st)

swap_current :
    String
    → ℕ
    → ExecutionGroupBudgetState
    → Store
    → Option ExecutionGroupBudgetState
    → Result Error (Bool × Store)
swap_current id expected s st none = ok (false, st)
swap_current id expected s st (some current) =
    if not (current.revision == expected) then ok (false, st) else (do
      guard (str_eq s.execution_group_id id) value_error
      guard (s.revision == expected + 1) value_error
      ok (true, insert id s st))

-- `compare_and_swap`
unfoldable pub compare_and_swap :
    String → ℕ → ExecutionGroupBudgetState → Store → Result Error (Bool × Store)
unfolding swap_current
compare_and_swap id expected s st = swap_current id expected s st (lookup id st)

-- What other clients do to the store, by the number of attempts that are left: between the load and
-- the swap of an attempt, and during the sleep after an attempt that failed.
pub record Others : Type 0 where
  pub before_swap : ℕ → Store → Store
  pub while_asleep : ℕ → Store → Store

-- One attempt, from the state that was loaded; the last argument is the rest of the loop.
swap_or_retry :
    {A : Type 0}
    → A
    → Result Error (Bool × Store)
    → Store
    → (Store → Result Error A × Store)
    → Result Error A × Store
swap_or_retry a (raise e) st retry = (raise e, st)
swap_or_retry a (ok (true, st')) st retry = (ok a, st')
swap_or_retry a (ok (false, st')) st retry = retry st'

attempt :
    {A : Type 0}
    → Others
    → String
    → ℕ
    → ExecutionGroupBudgetState
    → Result Error (Update A)
    → Store
    → (Store → Result Error A × Store)
    → Result Error A × Store
unfolding swap_or_retry
attempt o id n current (raise e) st retry = (raise e, st)
attempt o id n current (ok (unchanged a)) st retry = (ok a, st)
attempt o id n current (ok (replaced updated a)) st retry =
    let seen = o.before_swap n st in
    swap_or_retry a (compare_and_swap id current.revision updated seen) seen retry

load_and_attempt :
    {A : Type 0}
    → Others
    → String
    → Operation A
    → ℕ
    → Option ExecutionGroupBudgetState
    → Store
    → (Store → Result Error A × Store)
    → Result Error A × Store
unfolding attempt
load_and_attempt o id op n none st retry =
    (raise (budget_exceeded execution_group_not_initialized), st)
load_and_attempt o id op n (some current) st retry = attempt o id n current (op current) st retry

-- `_mutate` with the attempts that are left. The store is returned also when the call raises.
unfoldable pub mutate :
    {A : Type 0} → Others → String → Operation A → ℕ → Store → Result Error A × Store
unfolding load_and_attempt
mutate o id op zero st = (raise (budget_exceeded budget_store_contention), st)
mutate o id op (suc n) st =
    load_and_attempt o id op n (lookup id st) st (λ st'. mutate o id op n (o.while_asleep n st'))
