-- ===== src/Decision/Execution/Deciding/Verdicts.antt =====
-- moduagent/decision/planning.py: what each write of the policy keeps holds after a fallback and after
-- `validate_pending`.
use moduagent.Base.{
  ℕ, ◌≡◌, String, Bool, true, false, Option, none, some, List, Result, ok, raise, Dict, insert,
}
use moduagent.Decision.Planning.Steps.{PlanStep, Error}
use moduagent.Decision.Planning.Results.{
  StepResult, ValidationKind, commits, retries, replans, fails,
}
use moduagent.Decision.Execution.State.{
  ExecutionState, ActiveCall, RunPhase, plans, step_prepare, act, step_validate, verify, finalize,
  done, current_step,
}
use moduagent.Decision.Execution.State as StateCode
use moduagent.Decision.Execution.Operations.{fail_current_step, set_pending_result, commit_pending}
use moduagent.Decision.Execution.Calls.{
  ToolCall, tool_call_records, activate, retry_invalid_result, retry_validation,
}
use moduagent.Decision.Execution.Replan.{Revision, replan}
use moduagent.Decision.Execution.Policy.{
  Fallback, to_replan, to_fail, Verdict, judged, validator_raised, pending_of, fail_with,
  drop_result, noted, terminal_failure, after_replan, fallback_replan, fallback_tool_failure,
  by_kind, rule, validate_in, validate_pending,
}

-- A property of states that each write of the policy keeps.
pub record Kept (strip digest : String → String) (fingerprint : String → Option String)
    (ref_of : StepResult → String) (max_step_attempts max_replans : ℕ) (P : ExecutionState → Type 0)
    : Type 0 where
  pub failing : (st : ExecutionState) → P st → P (fail_current_step st)
  pub failing_with : (text : String) (st : ExecutionState) → P st → P (fail_with text st)
  pub dropping : (text : String) (st : ExecutionState) → P st → P (drop_result text st)
  pub noting : (st : ExecutionState) (reason : String) → P st → P (noted st reason)
  pub ending :
      (pending : Dict String) (reason : String) (st : ExecutionState)
      → P st
      → P (terminal_failure pending reason st)
  pub awaiting :
      (st : ExecutionState) (text : Option String)
      → P st
      → P (record st { awaiting_step_result = true; validation_error = text })
  pub setting : (st : ExecutionState) (r : StepResult) → P st → P (set_pending_result st r).0
  pub committing : (st : ExecutionState) → P st → P (commit_pending ref_of st).0
  pub retrying :
      (reason : String) (st : ExecutionState)
      → P st
      → P (retry_invalid_result max_step_attempts reason st)
  pub revalidating :
      (reason : String) (st : ExecutionState)
      → P st
      → P (retry_validation max_step_attempts reason st)
  pub replanning :
      (st : ExecutionState) (feedback : String) (revision : Revision)
      → P st
      → P (replan strip digest max_replans st feedback revision).0
  pub activating :
      (st : ExecutionState) (calls : List ToolCall) (records : Dict ActiveCall)
      → tool_call_records strip fingerprint st calls ≡ ok records
      → P st
      → P (activate st records).0

module _ (strip digest : String → String) (fingerprint : String → Option String)
    (ref_of : StepResult → String) (max_step_attempts max_replans : ℕ) (recovery : Option Fallback)
    (Fine : ExecutionState → Type 0)
    (k : Kept strip digest fingerprint ref_of max_step_attempts max_replans Fine) where
  after_replan-Fine : (o : ExecutionState × Result Error Bool) → Fine o.0 → Fine (after_replan o).0
  unfolding after_replan
  after_replan-Fine (st, raise e) t = t
  after_replan-Fine (st, ok b) t = t

  fallback_replan-Fine :
      (pending : Dict String) (o : ExecutionState × Result Error Bool)
      → Fine o.0
      → Fine (fallback_replan pending o).0
  unfolding fallback_replan
  fallback_replan-Fine pending (st, raise e) t = t
  fallback_replan-Fine pending (st, ok false) t = t
  fallback_replan-Fine pending (st, ok true) t = k.ending pending "maximum replans exceeded" st t

  pub fallback-Fine :
      (o : Option Fallback) (st : ExecutionState) (reason : String) (revision : Revision)
      → Fine st
      → Fine
          (fallback_tool_failure strip digest fingerprint ref_of max_step_attempts max_replans
            recovery o st reason revision).0
  unfolding fallback_tool_failure
  fallback-Fine none st reason revision t = t
  fallback-Fine (some to_replan) st reason revision t =
      fallback_replan-Fine _ _ (k.replanning (noted st reason) _ revision (k.noting st reason t))
  fallback-Fine (some to_fail) st reason revision t =
      let ended =
        k.ending (insert "fallback_reason" reason (pending_of st.pending_tool_failure)) reason
          (noted st reason) (k.noting st reason t) in
      k.failing _ ended

  by_kind-Fine :
      (kind : ValidationKind) (st : ExecutionState) (reason : String) (revision : Revision)
      → Fine st
      → Fine
          (by_kind strip digest fingerprint ref_of max_step_attempts max_replans recovery kind st
            reason revision).0
  unfolding by_kind
  by_kind-Fine commits st reason revision t = k.committing st t
  by_kind-Fine retries st reason revision t = k.revalidating reason st t
  by_kind-Fine replans st reason revision t =
      after_replan-Fine _ (k.replanning st reason revision t)
  by_kind-Fine fails st reason revision t = k.failing_with reason st t

  pub rule-Fine :
      (v : Verdict) (st : ExecutionState) (revision : Revision)
      → Fine st
      → Fine
          (rule strip digest fingerprint ref_of max_step_attempts max_replans recovery v st
            revision).0
  unfolding rule
  rule-Fine (validator_raised name) st revision t = k.failing_with _ st t
  rule-Fine (judged v reason) st revision t = by_kind-Fine v.kind st reason revision t

  validate_in-Fine :
      (phase : RunPhase) (r : Option StepResult) (s : Option PlanStep)
      (validator : PlanStep → StepResult → Verdict) (st : ExecutionState) (revision : Revision)
      → Fine st
      → Fine
          (validate_in strip digest fingerprint ref_of max_step_attempts max_replans recovery phase
            r s validator st revision).0
  unfolding validate_in
  validate_in-Fine step_validate (some r) (some s) validator st revision t =
      rule-Fine (validator s r) st revision t
  validate_in-Fine step_validate (some r) none validator st revision t =
      k.failing_with "pending step validation state is incomplete" st t
  validate_in-Fine step_validate none s validator st revision t =
      k.failing_with "pending step validation state is incomplete" st t
  validate_in-Fine plans r s validator st revision t =
      k.failing_with "pending step validation state is incomplete" st t
  validate_in-Fine step_prepare r s validator st revision t =
      k.failing_with "pending step validation state is incomplete" st t
  validate_in-Fine act r s validator st revision t =
      k.failing_with "pending step validation state is incomplete" st t
  validate_in-Fine verify r s validator st revision t =
      k.failing_with "pending step validation state is incomplete" st t
  validate_in-Fine finalize r s validator st revision t =
      k.failing_with "pending step validation state is incomplete" st t
  validate_in-Fine done r s validator st revision t =
      k.failing_with "pending step validation state is incomplete" st t
  validate_in-Fine StateCode.fails r s validator st revision t =
      k.failing_with "pending step validation state is incomplete" st t

  pub validate_pending-Fine :
      (validator : PlanStep → StepResult → Verdict) (st : ExecutionState) (revision : Revision)
      → Fine st
      → Fine
          (validate_pending strip digest fingerprint ref_of max_step_attempts max_replans recovery
            validator st revision).0
  unfolding validate_pending
  validate_pending-Fine validator st revision t =
      validate_in-Fine st.phase st.pending_step_result (current_step st) validator st revision t
