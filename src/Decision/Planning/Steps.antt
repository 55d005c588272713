-- ===== src/Decision/Planning/Steps.antt =====
-- moduagent/decision/planning.py: `PlanStep` and its `__post_init__`. `strip` is Python's `str.strip`,
-- and `digest` gives the first twelve hexadecimal digits of a text's SHA-256. Every check raises a
-- ValueError. A metadata value is a text.
use Prim.Native.String.{◌++◌}
use moduagent.Base.{
  ℕ, String, not, Option, none, some, List, [], ◌∷◌, Result, ok, guard, ◌>>◌, ◌>>=◌, all, is_unique,
  is_empty, if◌then◌else◌, Dict, map,
}

pub data PlanStepStatus : Type 0 where
  pending in_progress completed blocked failed skipped : PlanStepStatus

pub record PlanStep : Type 0 where
  pub description : String
  pub status : PlanStepStatus
  pub expected_output : Option String
  pub metadata : Dict String
  pub step_id : String
  pub objective : Option String
  pub completion_criteria : List String
  pub dependencies : List String
  pub allowed_tools : List String
  pub attempt_count : ℕ
  pub result_ref : Option String

pub data Error : Type 0 where
  value_error key_error recursion_error runtime_error model_guard_tripped : Error

-- `a or b`
abbrev pub or_else : String → String → String
or_else a b = if is_empty a then b else a

-- `criteria or [default]`
abbrev pub or_default : List String → String → List String
or_default [] s = s ∷ []
or_default (c ∷ cs) s = c ∷ cs

abbrev pub text_of : Option String → String
text_of none = ""
text_of (some s) = s

module _ (strip : String → String) where
  -- `_string_list`
  unfoldable pub string_list : List String → Result Error (List String)
  string_list value = do
    let result = map strip value
    guard (all (λ s. not (is_empty s)) result) value_error
    guard (is_unique result) value_error
    ok result

  abbrev pub stripped : Option String → Option String
  stripped none = none
  stripped (some s) = some (strip s)

  abbrev pub objective_of : PlanStep → String
  objective_of raw = strip (or_else (text_of raw.objective) (strip raw.description))

module _ (strip digest : String → String) where
  -- `_stable_step_id`
  abbrev pub stable_step_id : String → String
  stable_step_id objective = "step-" ++ digest objective

  abbrev pub step_id_of : PlanStep → String
  step_id_of raw = strip (or_else raw.step_id (stable_step_id (objective_of strip raw)))

  abbrev pub criteria_of : PlanStep → List String
  criteria_of raw = or_default raw.completion_criteria (
      or_else (text_of (stripped strip raw.expected_output))
        ("Complete the objective: " ++ objective_of strip raw))

  -- `PlanStep.__post_init__`
  unfoldable pub post_init : PlanStep → Result Error PlanStep
  post_init raw = do
    guard (not (is_empty (objective_of strip raw))) value_error
    guard (not (is_empty (step_id_of raw))) value_error
    completion_criteria ← string_list strip (criteria_of raw)
    dependencies ← string_list strip raw.dependencies
    allowed_tools ← string_list strip raw.allowed_tools
    ok (record raw {
      description = or_else (strip raw.description) (objective_of strip raw);
      objective = some (objective_of strip raw);
      step_id = step_id_of raw;
      expected_output = stripped strip raw.expected_output;
      completion_criteria = completion_criteria;
      dependencies = dependencies;
      allowed_tools = allowed_tools;
    })
