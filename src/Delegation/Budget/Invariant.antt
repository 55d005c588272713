-- ===== src/Delegation/Budget/Invariant.antt =====
-- moduagent/delegation/budget.py: the quotas of an execution group over any sequence of calls.
use moduagent.Base.{
  ℕ, ◌+◌, ◌≤◌, ◌≡◌, String, Bool, true, false, arith, List, [], ◌∷◌, lookup, get_or, all_entries,
  all_entries-insert, leb, inl, inr, is_empty, Result-cases,
}
use moduagent.Delegation.Models.{str, ExecutionGroupLimits}
use moduagent.Delegation.Budget.State.{ExecutionGroupBudgetState}
use moduagent.Delegation.Budget.Changes.{unchanged, replaced}
use moduagent.Delegation.Budget.Calls.{
  Call, reserves_delegation, reserves_model_turn, reserves_tool_call, completes, releases, cancels,
  perform, step, run,
}
use moduagent.Delegation.Budget.Validity.{IsValid}
use moduagent.Delegation.Budget.Outcomes.{Effect, perform-Effect}

abbrev within : ℕ → String → ℕ → Bool
within limit _ n = leb n limit

-- `__post_init__` checks neither delegation quota; the ledger keeps both.
pub record Inv (s : ExecutionGroupBudgetState) : Type 0 where
  pub valid : IsValid s
  pub delegations_bounded : s.delegation_count ≤ s.limits.max_delegations
  pub agents_bounded :
      all_entries (within s.limits.max_delegations_per_agent) s.per_agent_delegations ≡ true

-- What no call changes, and the revision, which every stored change moves by one.
pub record Follows (s t : ExecutionGroupBudgetState) : Type 0 where
  pub same_group : t.execution_group_id ≡ s.execution_group_id
  pub same_limits : t.limits ≡ s.limits
  pub same_deadline : t.absolute_deadline ≡ s.absolute_deadline
  pub next_revision : t.revision ≡ s.revision + 1

pub Effect-Follows : (c : Call) (s t : ExecutionGroupBudgetState) → Effect c s t → Follows s t
Effect-Follows (reserves_delegation now id callee) s t e = ground arith
Effect-Follows (reserves_model_turn now n) s t e = ground arith
Effect-Follows (reserves_tool_call now n) s t e = ground arith
Effect-Follows (completes usage lease) s t (r, u, held, normal, written) = ground arith
Effect-Follows (releases lease) s t (r, held, written) = ground arith
Effect-Follows cancels s t e = ground arith

Effect-Inv : (c : Call) (s t : ExecutionGroupBudgetState) → Effect c s t → IsValid t → Inv s → Inv t
Effect-Inv (reserves_delegation now id callee) s t e v i = ground (
  arith,
  all_entries-insert (within s.limits.max_delegations_per_agent) (str callee)
      (get_or 0 (lookup (str callee) s.per_agent_delegations) + 1) s.per_agent_delegations,
)
Effect-Inv (reserves_model_turn now n) s t e v i = ground arith
Effect-Inv (reserves_tool_call now n) s t e v i = ground arith
Effect-Inv (completes usage lease) s t (r, u, held, normal, written) v i = ground arith
Effect-Inv (releases lease) s t (r, held, written) v i = ground arith
Effect-Inv cancels s t e v i = ground arith

-- A property that every stored change keeps is kept by every call.
pub step_induction {κ} :
    (P : ExecutionGroupBudgetState → Type κ) (c : Call) (s : ExecutionGroupBudgetState)
    → P s
    → ((t : ExecutionGroupBudgetState) → Effect c s t → IsValid t → P t)
    → P (step s c)
unfolding step
step_induction P c s h k = elim (Result-cases (perform c s)) [
  | inl (unchanged a, e) ↦ rw (e, step) h
  | inl (replaced t a, e) ↦
      rw (e, step) (k t (perform-Effect c s t a e).0 (perform-Effect c s t a e).1)
  | inr (x, e) ↦ rw (e, step) h
]

pub run_induction {κ} :
    (P : ExecutionGroupBudgetState → Type κ) (s : ExecutionGroupBudgetState) (cs : List Call)
    → ((c : Call) (u t : ExecutionGroupBudgetState) → P u → Effect c u t → IsValid t → P t)
    → P s
    → P (run s cs)
unfolding run
run_induction P s [] k h = h
run_induction P s (c ∷ cs) k h =
    run_induction P (step s c) cs k (step_induction P c s h (λ t. k c s t h))

-- The state that `ensure_group` creates.
unfoldable pub new_group : String → ExecutionGroupLimits → ℕ → ExecutionGroupBudgetState
new_group id limits deadline = record {
  execution_group_id = id;
  limits = limits;
  absolute_deadline = deadline;
  revision = 1;
  delegation_count = 0;
  model_turns = 0;
  tool_calls = 0;
  per_agent_delegations = [];
  leases = [];
  usage = [];
  cancelled = false;
}

pub new_group-Inv :
    (id : String) (limits : ExecutionGroupLimits) (deadline : ℕ)
    → is_empty id ≡ false
    → Inv (new_group id limits deadline)
unfolding new_group
new_group-Inv id limits deadline h = ground arith

-- From a new group, any sequence of ledger calls, failing ones included, keeps every quota of the
-- group: the record stays valid for `__post_init__`, and neither the number of delegations nor any
-- Agent's number of delegations exceeds its limit.
pub run-Inv :
    (id : String) (limits : ExecutionGroupLimits) (deadline : ℕ) (cs : List Call)
    → is_empty id ≡ false
    → Inv (run (new_group id limits deadline) cs)
run-Inv id limits deadline cs h =
    run_induction Inv (new_group id limits deadline) cs (λ c u t i e v. Effect-Inv c u t e v i)
      (new_group-Inv id limits deadline h)
