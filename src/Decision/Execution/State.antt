-- ===== src/Decision/Execution/State.antt =====
-- moduagent/decision/planning.py: `RunPhase` and the fields of `ExecutionState`. The counts are not
-- negative, which `__post_init__` checks; the entries of a failure are texts.
use moduagent.Base.{ℕ, String, Bool, Option, none, some, List, [], ◌∷◌, Dict, str_eq, if◌then◌else◌}
use moduagent.Decision.Planning.Steps.{PlanStep}
use moduagent.Decision.Planning.Results.{StepResult}
use moduagent.Decision.Planning.Plan.{Plan, current}

pub data RunPhase : Type 0 where
  plans step_prepare act step_validate verify finalize done fails : RunPhase

pub record ActiveCall : Type 0 where
  pub tool_name : String
  pub arguments_fingerprint : String

pub record ExecutionState : Type 0 where
  pub phase : RunPhase
  pub plan : Plan
  pub current_step_id : Option String
  pub committed_results : Dict StepResult
  pub pending_step_result : Option StepResult
  pub validation_error : Option String
  pub awaiting_step_result : Bool
  pub replan_count : ℕ
  pub finalization_count : ℕ
  pub final_response : Option String
  pub final_persisted : Bool
  pub final_emitted : Bool
  pub tool_repair_counts : Dict ℕ
  pub pending_tool_failure : Option (Dict String)
  pub total_tool_repairs : ℕ
  pub failure : Option (Dict String)
  pub active_tool_calls : Dict ActiveCall
  pub seen_tool_call_ids : List String

-- The step with an id; the ids of a plan are unique.
abbrev pub find_step : String → List PlanStep → Option PlanStep
find_step step_id [] = none
find_step step_id (s ∷ ss) =
    let rest = find_step step_id ss in if str_eq s.step_id step_id then some s else rest

abbrev pub step_named : Plan → Option String → Option PlanStep
step_named p none = current p
step_named p (some step_id) = find_step step_id p.steps

-- `current_step`
unfoldable pub current_step : ExecutionState → Option PlanStep
current_step st = step_named st.plan st.current_step_id

abbrev pub id_of : Option PlanStep → Option String
id_of none = none
id_of (some s) = some s.step_id

-- `None if plan.current is None else plan.current.step_id`
unfoldable pub current_id : Plan → Option String
current_id p = id_of (current p)
