-- ===== src/Decision/Planning/Results.antt =====
-- moduagent/decision/planning.py: `StepResult` and `StepValidator`. An artifact is its JSON text; of a
-- verdict stand its kind and the unmet criteria.
use moduagent.Base.{
  ℕ, ◌-◌, String, Bool, true, false, List, [], ◌∷◌, length, drop, is_empty, if◌then◌else◌, Dict,
  str_eq, ◌==◌,
}
use moduagent.Decision.Planning.Steps.{PlanStep}

pub data ResultStatus : Type 0 where
  completed blocked failed : ResultStatus

pub record StepResult : Type 0 where
  pub step_id : String
  pub status : ResultStatus
  pub facts : List String
  pub artifacts : Dict String
  pub uncertainties : List String
  pub missing_inputs : List String
  pub completion_evidence : List String

pub data ValidationKind : Type 0 where
  commits retries replans fails : ValidationKind

pub record StepValidation : Type 0 where
  pub kind : ValidationKind
  pub unmet_criteria : List String

abbrev pub without_criteria : ValidationKind → StepValidation
without_criteria kind = record { kind = kind; unmet_criteria = [] }

-- `[item.strip() for item in items if item.strip()]`
abbrev pub strip_all : (String → String) → List String → List String
strip_all strip [] = []
strip_all strip (s ∷ ss) =
    let rest = strip_all strip ss in if is_empty (strip s) then rest else strip s ∷ rest

-- `criteria[-missing:]` for a number that is missing and not more than there are.
abbrev pub last_of : ℕ → List String → List String
last_of missing criteria = drop (length criteria - missing) criteria

abbrev pub is_listed : List String → Bool
is_listed [] = false
is_listed (s ∷ ss) = true

unfoldable pub check_evidence : PlanStep → ℕ → StepValidation
check_evidence step missing =
    if missing == 0
    then without_criteria commits
    else record { kind = retries; unmet_criteria = last_of missing step.completion_criteria }

unfoldable pub check_status :
    (String → String) → PlanStep → StepResult → ResultStatus → StepValidation
check_status strip step r failed = without_criteria fails
check_status strip step r blocked =
    without_criteria (if is_listed r.missing_inputs then replans else retries)
check_status strip step r completed =
    check_evidence step
      (length step.completion_criteria - length (strip_all strip r.completion_evidence))

-- `StepValidator.validate`; `-` stops at 0 as `max(0, …)` does.
unfoldable pub validate : (String → String) → PlanStep → StepResult → StepValidation
validate strip step r =
    if str_eq r.step_id step.step_id
    then check_status strip step r r.status
    else without_criteria fails
