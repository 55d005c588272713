-- ===== src/Execution/Recovery/Decision.antt =====
-- moduagent/execution/planning/recovery.py: `ToolRecoveryController.decide`. The failure projector is
-- the controller's constructor argument `project`, told whether to include the safe message; `is_blank` is Python's
-- `not text.strip()`. Of a batch's outcome stand its number of successes and its failures, whose
-- count the outcome's own check ties to the failed results. The checks of `ToolRepairConstraint` are
-- left out: `InternalToolFailure` and `ToolRecoveryState` have made the same ones (a call, a tool and seen
-- ids that are not blank, fingerprints of SHA-256).
use moduagent.Base.{
  ℕ, ◌+◌, String, Bool, true, false, not, ◌&&◌, ◌||◌, Option, none, some, List, [], ◌∷◌, Result, ok,
  guard, ◌>>◌, leb, ltb, opt_eq, str_eq, Dict, lookup, insert, get_or, if◌then◌else◌,
}
use moduagent.Execution.Recovery.State.{
  ActiveCall, ToolRecoveryState, Reason, Error, value_error, completed, partial_success,
  requires_failure, requires_replanning, multiple_failures, retry_exhausted, no_recovery_action,
  repair_not_enabled, not_repair_safe, budget_exhausted, unverified_invocation,
  missing_fingerprints, repair_failed_call,
}

pub data ToolRecoveryAction : Type 0 where
  retry_call repair_call replan fail : ToolRecoveryAction

pub record InternalToolFailure : Type 0 where
  pub call_id : String
  pub tool_name : String
  pub recovery_directive : Option ToolRecoveryAction
  pub changed_argument_repair_safe : Bool
  pub requested_arguments_fingerprint : Option String
  pub effective_arguments_fingerprint : Option String

pub record ToolBatchOutcome : Type 0 where
  pub success_count : ℕ
  pub failures : List InternalToolFailure

pub data Fallback : Type 0 where
  to_replan to_fail : Fallback

pub record ToolRecoveryControllerConfig : Type 0 where
  pub fallback : Fallback
  pub allow_same_step_repair : Bool
  pub require_repair_safe : Bool
  pub includes_safe_message : Bool

pub data Kind : Type 0 where
  continues repairs replans fails : Kind

pub record ToolRepairConstraint : Type 0 where
  pub failed_call_id : String
  pub expected_tool_name : String
  pub seen_call_ids : List String
  pub previous_requested_fingerprint : String
  pub previous_effective_fingerprint : String

pub record ToolRecoveryDecision (V : Type 0) : Type 0 where
  pub kind : Kind
  pub reason : Reason
  pub failure : Option V
  pub repair_constraint : Option ToolRepairConstraint
  pub repair_attempt : ℕ

-- A decision with the state after it.
abbrev pub Verdict : Type 0 → Type 0
Verdict V = ToolRecoveryDecision V × ToolRecoveryState V

abbrev pub count_of : String → Dict ℕ → ℕ
count_of step_id counts = get_or 0 (lookup step_id counts)

abbrev pub is_fail : InternalToolFailure → Bool
is_fail f = elim f.recovery_directive [ some fail ↦ true | _ ↦ false ]

abbrev pub is_replan : InternalToolFailure → Bool
is_replan f = elim f.recovery_directive [ some replan ↦ true | _ ↦ false ]

abbrev pub any_failure : (InternalToolFailure → Bool) → List InternalToolFailure → Bool
any_failure p [] = false
any_failure p (f ∷ fs) = p f || any_failure p fs

-- The active call that the failure names, with the arguments it was requested with.
abbrev pub matches : InternalToolFailure → Option ActiveCall → Bool
matches primary none = false
matches primary (some call) =
    str_eq call.tool_name primary.tool_name
    && opt_eq (some call.arguments_fingerprint) primary.requested_arguments_fingerprint

module _ {V : Type 0} where
  abbrev pub without_repair : Kind → Reason → V → ToolRecoveryDecision V
  without_repair kind reason view = record {
    kind = kind;
    reason = reason;
    failure = some view;
    repair_constraint = none;
    repair_attempt = 0;
  }

  -- `_replan`
  unfoldable pub replan_step : ToolRecoveryState V → V → Reason → Verdict V
  replan_step s view reason = (without_repair replans reason view, record s { active_calls = [] })

  -- `_terminal`
  unfoldable pub terminal : ToolRecoveryState V → V → Reason → Verdict V
  terminal s view reason = (
    without_repair fails reason view,
    record s {
      active_calls = [];
      terminal_failure = some (record { failure = view; terminal_reason = reason });
    },
  )

  -- `_fallback`
  unfoldable pub fall_back : Fallback → ToolRecoveryState V → V → Reason → Verdict V
  fall_back to_fail s view reason = terminal s view reason
  fall_back to_replan s view reason = replan_step s view reason

module _ {V : Type 0} (config : ToolRecoveryControllerConfig) (step_id : String)
    (max_repair_attempts : ℕ) where
  -- The repair itself, from the failure's two fingerprints.
  unfoldable pub repair :
      ToolRecoveryState V → V → InternalToolFailure → Option String → Option String → Verdict V
  repair s view primary (some requested) (some effective) =
      let attempt = count_of step_id s.repair_count_by_step + 1 in
      (
        record {
          kind = repairs;
          reason = repair_failed_call;
          failure = some view;
          repair_constraint = some (record {
            failed_call_id = primary.call_id;
            expected_tool_name = primary.tool_name;
            seen_call_ids = primary.call_id ∷ s.seen_call_ids;
            previous_requested_fingerprint = requested;
            previous_effective_fingerprint = effective;
          });
          repair_attempt = attempt;
        },
        record s {
          repair_count_by_step = insert step_id attempt s.repair_count_by_step;
          total_repairs = s.total_repairs + 1;
          active_calls = [];
        },
      )
  repair s view primary none effective = fall_back config.fallback s view missing_fingerprints
  repair s view primary (some requested) none =
      fall_back config.fallback s view missing_fingerprints

  -- A single failure whose directive is to repair the call.
  unfoldable pub try_repair : ToolRecoveryState V → V → InternalToolFailure → Verdict V
  try_repair s view primary =
      if not config.allow_same_step_repair
      then fall_back config.fallback s view repair_not_enabled
      else if config.require_repair_safe && not primary.changed_argument_repair_safe
      then fall_back config.fallback s view not_repair_safe
      else if leb max_repair_attempts (count_of step_id s.repair_count_by_step)
      then fall_back config.fallback s view budget_exhausted
      else if not (matches primary (lookup primary.call_id s.active_calls))
      then fall_back config.fallback s view unverified_invocation
      else repair s view primary primary.requested_arguments_fingerprint
          primary.effective_arguments_fingerprint

  -- A batch of one call that failed, by its directive.
  unfoldable pub decide_single :
      ToolRecoveryState V → V → InternalToolFailure → Option ToolRecoveryAction → Verdict V
  decide_single s view primary (some fail) = terminal s view requires_failure
  decide_single s view primary (some replan) = replan_step s view requires_replanning
  decide_single s view primary (some retry_call) = fall_back config.fallback s view retry_exhausted
  decide_single s view primary none = fall_back config.fallback s view no_recovery_action
  decide_single s view primary (some repair_call) = try_repair s view primary

  -- A batch of several calls that all failed.
  unfoldable pub decide_batch : ToolRecoveryState V → V → List InternalToolFailure → Verdict V
  decide_batch s view failures =
      if any_failure is_fail failures
      then terminal s view requires_failure
      else if any_failure is_replan failures
      then replan_step s view requires_replanning
      else fall_back config.fallback s view multiple_failures

  unfoldable pub decide_failed :
      ToolRecoveryState V → V → InternalToolFailure → List InternalToolFailure → Verdict V
  decide_failed s view primary [] = decide_single s view primary primary.recovery_directive
  decide_failed s view primary (second ∷ rest) = decide_batch s view (primary ∷ second ∷ rest)

module _ {V : Type 0} (project : Bool → InternalToolFailure → V) (is_blank : String → Bool)
    (config : ToolRecoveryControllerConfig) (step_id : String) (max_repair_attempts : ℕ) where
  unfoldable pub decide_outcome : ToolRecoveryState V → ℕ → List InternalToolFailure → Verdict V
  unfolding decide_failed
  decide_outcome s success_count [] = (
    record {
      kind = continues;
      reason = completed;
      failure = none;
      repair_constraint = none;
      repair_attempt = 0;
    },
    record s { active_calls = []; pending_failure = none; terminal_failure = none },
  )
  decide_outcome s success_count (primary ∷ rest) =
      let view = project config.includes_safe_message primary in
      let pending = record s {
        pending_failure = some (record {
          failure = view;
          step_id = step_id;
          repair_safe = primary.changed_argument_repair_safe;
        });
      } in
      if ltb 0 success_count
      then terminal pending view partial_success
      else decide_failed config step_id max_repair_attempts pending view primary rest

  -- `decide`
  unfoldable pub decide : ToolBatchOutcome → ToolRecoveryState V → Result Error (Verdict V)
  unfolding decide_outcome
  decide outcome s = do
    guard (not (is_blank step_id)) value_error
    ok (decide_outcome s outcome.success_count outcome.failures)
