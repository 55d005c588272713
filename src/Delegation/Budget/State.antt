-- ===== src/Delegation/Budget/State.antt =====
-- moduagent/delegation/budget.py: the stored state of an execution group and its validation.
use moduagent.Base.{
  ℕ, String, Bool, not, Result, ok, raise, guard, ◌>>◌, ◌>>=◌, leb, ◌==◌, length, Dict, sum_by,
  all_entries, is_empty, str_eq, insert, [], ◌∷◌,
}
use moduagent.Delegation.Models.{ExecutionGroupLimits}

-- The codes of `BudgetExceeded`.
pub data Code : Type 0 where
  execution_group_contract_mismatch budget_store_contention delegation_count_exceeded : Code
  delegation_per_agent_exceeded execution_group_timeout budget_lease_identity_mismatch : Code
  budget_lease_not_active execution_group_model_turns_exceeded : Code
  execution_group_tool_calls_exceeded budget_lease_deadline_mismatch : Code
  execution_group_not_initialized execution_group_cancelled : Code
  budget_lease_group_mismatch budget_lease_not_found : Code

-- What a ledger call can raise; `retry_reservation` is the private `_RetryReservation`.
pub data Error : Type 0 where
  budget_exceeded : Code → Error
  value_error type_error retry_reservation : Error

pub data LeaseStatus : Type 0 where
  active completed released cancelled : LeaseStatus

pub record StoredBudgetLease : Type 0 where
  pub lease_id : String
  pub callee_key : String
  pub status : LeaseStatus

-- The constructor of `StoredBudgetLease`, with its `__post_init__`.
unfoldable pub stored_lease : String → String → LeaseStatus → Result Error StoredBudgetLease
stored_lease lease_id callee_key status = do
  guard (not (is_empty lease_id)) value_error
  guard (not (is_empty callee_key)) value_error
  ok (record { lease_id = lease_id; callee_key = callee_key; status = status })

pub record ExecutionGroupBudgetState : Type 0 where
  pub execution_group_id : String
  pub limits : ExecutionGroupLimits
  pub absolute_deadline : ℕ
  pub revision : ℕ
  pub delegation_count : ℕ
  pub model_turns : ℕ
  pub tool_calls : ℕ
  pub per_agent_delegations : Dict ℕ
  pub leases : Dict StoredBudgetLease
  pub usage : Dict ℕ
  pub cancelled : Bool

abbrev pub is_active : LeaseStatus → ℕ
is_active active = 1
is_active _ = 0

-- `sum(lease.status == LeaseStatus.ACTIVE for lease in leases.values())`
abbrev pub active_count : Dict StoredBudgetLease → ℕ
active_count = sum_by (λ l. is_active l.status)

unfoldable pub active_delegations : ExecutionGroupBudgetState → ℕ
active_delegations s = active_count s.leases

abbrev pub has_key : String → ℕ → Bool
has_key k _ = not (is_empty k)

abbrev pub is_own_key : String → StoredBudgetLease → Bool
is_own_key k l = str_eq k l.lease_id

-- A usage value as a caller may pass it: a bool or another type, NaN or an infinity, a negative
-- number, or an amount.
pub data UsageValue : Type 0 where
  not_a_number not_finite : UsageValue
  negative amount : ℕ → UsageValue

unfoldable pub usage_amount : UsageValue → Result Error ℕ
usage_amount not_a_number = raise type_error
usage_amount not_finite = raise value_error
usage_amount (negative n) = raise value_error
usage_amount (amount n) = ok n

-- The loop of `_normalize_usage`, over the entries left and the dict built so far.
unfoldable pub normalize_entries : Dict UsageValue → Dict ℕ → Result Error (Dict ℕ)
unfolding usage_amount
normalize_entries [] normalized = ok normalized
normalize_entries ((k, v) ∷ rest) normalized =
    guard (not (is_empty k)) value_error
    >> (usage_amount v >>= λ n. normalize_entries rest (insert k n normalized))

unfoldable pub normalize_usage : Dict UsageValue → Result Error (Dict ℕ)
unfolding normalize_entries
normalize_usage usage = normalize_entries usage []

-- `ExecutionGroupBudgetState.__post_init__`, which every constructor call and `replace` runs.
unfoldable pub post_init : ExecutionGroupBudgetState → Result Error ExecutionGroupBudgetState
post_init s = do
  guard (not (is_empty s.execution_group_id)) value_error
  guard (leb 1 s.revision) value_error
  guard (all_entries has_key s.per_agent_delegations) value_error
  guard (all_entries is_own_key s.leases) value_error
  guard (sum_by (λ n. n) s.per_agent_delegations == s.delegation_count) value_error
  guard (length s.leases == s.delegation_count) value_error
  guard (leb s.model_turns s.limits.max_total_model_turns) value_error
  guard (leb s.tool_calls s.limits.max_total_tool_calls) value_error
  guard (leb (active_count s.leases) s.limits.max_parallel_delegations) value_error
  guard (all_entries has_key s.usage) value_error
  ok s
