-- ===== src/Execution/Recovery/Completeness.antt =====
-- moduagent/execution/planning/recovery.py: a repair is ordered for a call that was recorded and fails.
use moduagent.Base.{[], ◌∷◌, ℕ, ◌≡◌, String, Bool, some}
use moduagent.Execution.Recovery.State.{ToolCall, ToolRecoveryState}
use moduagent.Execution.Recovery.Decision.{
  repair_call, InternalToolFailure, ToolBatchOutcome, ToolRecoveryControllerConfig, Kind,
  decide_outcome,
}
use moduagent.Execution.Recovery.Bounds.{records, step}

module _ {V : Type 0} (project : Bool → InternalToolFailure → V) (is_blank : String → Bool)
    (config : ToolRecoveryControllerConfig) (step_id : String) (max_repair_attempts : ℕ) where
  abbrev outcome_kind : ToolBatchOutcome → ToolRecoveryState V → Kind
  outcome_kind outcome s =
      (decide_outcome project is_blank config step_id max_repair_attempts s outcome.success_count
        outcome.failures).0.kind

-- The failure of a call, which its Tool asks to repair: of that call, by that Tool, with the arguments it
-- was requested with and those it ran with.
pub record Fails (call : ToolCall) (failure : InternalToolFailure) (effective : String)
    : Type 0 where
  pub same_call : failure.call_id ≡ call.id
  pub same_tool : failure.tool_name ≡ call.name
  pub same_arguments : failure.requested_arguments_fingerprint ≡ some call.arguments_fingerprint
  pub ran_with : failure.effective_arguments_fingerprint ≡ some effective
  pub asks_repair : failure.recovery_directive ≡ some repair_call

abbrev pub failed_alone : InternalToolFailure → ToolBatchOutcome
failed_alone failure = record { success_count = 0; failures = failure ∷ [] }

module _ {V : Type 0} (project : Bool → InternalToolFailure → V) (is_blank : String → Bool)
    (config : ToolRecoveryControllerConfig) (limit : String → ℕ) where
  abbrev pub recorded : ToolRecoveryState V → ToolCall → ToolRecoveryState V
  recorded s call = step project is_blank config limit s (records (call ∷ []))
