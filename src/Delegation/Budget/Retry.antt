-- ===== src/Delegation/Budget/Retry.antt =====
-- moduagent/delegation/budget.py: a reservation that is made again after a crash.
use moduagent.Base.{
  ◌≡◌, refl, ap, ◌∙◌, ℕ, String, some, ok, List, Result-cases, inl, inr, arith, lookup, eq_refl,
}
use moduagent.Delegation.Models.{AgentRef, BudgetLease, str}
use moduagent.Delegation.Budget.State.{ExecutionGroupBudgetState}
use moduagent.Delegation.Budget.Changes.{
  unchanged, replaced, reserve_delegation, open_lease, assert_live, adopt_active_lease,
  budget_lease,
}
use moduagent.Delegation.Budget.Calls.{Call, run}
use moduagent.Delegation.Budget.Invariant.{run_induction, Effect-Follows}
use moduagent.Delegation.Budget.Lifecycle.{run-execution_group_id}
use moduagent.Delegation.Budget.Outcomes.{new_lease, IsLive, reserve_delegation-Opened}

run-absolute_deadline :
    (s : ExecutionGroupBudgetState) (cs : List Call)
    → (run s cs).absolute_deadline ≡ s.absolute_deadline
run-absolute_deadline s cs =
    run_induction (λ t. t.absolute_deadline ≡ s.absolute_deadline) s cs
      (λ c u t i e v. (Effect-Follows c u t e).same_deadline ∙ i) refl

adopt_stored :
    (now : ℕ) (id : String) (callee : AgentRef) (lease : BudgetLease)
    (s : ExecutionGroupBudgetState)
    → IsLive now s
    → lookup id s.leases ≡ some (new_lease id callee)
    → budget_lease id s.execution_group_id callee s.absolute_deadline ≡ ok lease
    → reserve_delegation now id callee s ≡ ok (unchanged lease)
unfolding reserve_delegation assert_live adopt_active_lease
adopt_stored now id callee lease s live held e = ground (arith, eq_refl (str callee))

granted_by :
    (now : ℕ) (id : String) (callee : AgentRef) (lease : BudgetLease)
    (s t : ExecutionGroupBudgetState)
    → reserve_delegation now id callee s ≡ ok (replaced t lease)
    → budget_lease id s.execution_group_id callee s.absolute_deadline ≡ ok lease
unfolding reserve_delegation assert_live adopt_active_lease open_lease
granted_by now id callee lease s t e =
    elim (Result-cases (budget_lease id s.execution_group_id callee s.absolute_deadline)) [
      | inl (l, p) ↦ ground arith
      | inr (x, p) ↦ ground arith
    ]

-- A reservation that is repeated while its lease is still active, with any calls in between, gives
-- the same lease again and charges nothing.
pub reserve_delegation_again :
    (now now' : ℕ) (id : String) (callee : AgentRef) (lease : BudgetLease)
    (s t : ExecutionGroupBudgetState) (cs : List Call)
    → reserve_delegation now id callee s ≡ ok (replaced t lease)
    → lookup id (run t cs).leases ≡ some (new_lease id callee)
    → IsLive now' (run t cs)
    → reserve_delegation now' id callee (run t cs) ≡ ok (unchanged lease)
reserve_delegation_again now now' id callee lease s t cs e held live =
    let (_, opened, _) = reserve_delegation-Opened s t now id callee lease e in
    let group : (run t cs).execution_group_id ≡ s.execution_group_id =
      run-execution_group_id t cs ∙ ap (λ x. x.execution_group_id) opened.written in
    let deadline : (run t cs).absolute_deadline ≡ s.absolute_deadline =
      run-absolute_deadline t cs ∙ ap (λ x. x.absolute_deadline) opened.written in
    adopt_stored now' id callee lease (run t cs) live held
      (rw (group, deadline) (granted_by now id callee lease s t e))
