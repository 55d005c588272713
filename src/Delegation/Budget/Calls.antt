-- ===== src/Delegation/Budget/Calls.antt =====
-- moduagent/delegation/budget.py: the ledger's mutating calls as one data type, with what each
-- does to a group's state when no other client interferes. A call that raises leaves the state.
use moduagent.Base.{guard, ℕ, String, Bool, List, [], ◌∷◌, Result, ok, raise, ◌>>◌, ◌>>=◌, Dict}
use moduagent.Delegation.Models.{AgentRef, BudgetLease, is_identifier}
use moduagent.Delegation.Budget.State.{
  Error, value_error, ExecutionGroupBudgetState, UsageValue, normalize_usage,
}
use moduagent.Delegation.Budget.Changes.{
  Update, unchanged, replaced, Operation, reserve_delegation, reserve_model_turn, reserve_tool_call,
  validate_count,
}
use moduagent.Delegation.Budget.Closing.{complete, release, cancel}

-- A call with its arguments; the first number of a reservation is the clock's reading.
pub data Call : Type 0 where
  reserves_delegation : ℕ → String → AgentRef → Call
  reserves_model_turn reserves_tool_call : ℕ → ℕ → Call
  completes : Dict UsageValue → BudgetLease → Call
  releases : BudgetLease → Call
  cancels : Call

pub data Reply : Type 0 where
  granted : BudgetLease → Reply
  closed : Bool → Reply
  done : Reply

abbrev pub reply_with :
    {A : Type 0} → (A → Reply) → Result Error (Update A) → Result Error (Update Reply)
reply_with f (ok (unchanged a)) = ok (unchanged (f a))
reply_with f (ok (replaced t a)) = ok (replaced t (f a))
reply_with f (raise e) = raise e

-- The checks of the arguments, then the callback.
unfoldable pub perform : Call → Operation Reply
perform (reserves_delegation now lease_id callee) s =
    guard (is_identifier lease_id) value_error
    >> reply_with granted (reserve_delegation now lease_id callee s)
perform (reserves_model_turn now count) s =
    validate_count count >> reply_with (λ _. done) (reserve_model_turn now count s)
perform (reserves_tool_call now count) s =
    validate_count count >> reply_with (λ _. done) (reserve_tool_call now count s)
perform (completes usage lease) s =
    normalize_usage usage >>= λ u. reply_with closed (complete u lease s)
perform (releases lease) s = reply_with (λ _. done) (release lease s)
perform cancels s = reply_with (λ _. done) (cancel s)

abbrev pub state_after :
    {A : Type 0} → ExecutionGroupBudgetState → Result Error (Update A) → ExecutionGroupBudgetState
state_after s (ok (unchanged a)) = s
state_after s (ok (replaced t a)) = t
state_after s (raise e) = s

unfoldable pub step : ExecutionGroupBudgetState → Call → ExecutionGroupBudgetState
unfolding perform
step s c = state_after s (perform c s)

unfoldable pub run : ExecutionGroupBudgetState → List Call → ExecutionGroupBudgetState
unfolding step
run s [] = s
run s (c ∷ cs) = run (step s c) cs
