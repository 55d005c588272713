-- ===== src/Decision/Planning/Moves.antt =====
-- moduagent/decision/planning.py: the transitions of `Plan`. A step is shared by the plan and the
-- caller, so a method that returns the current step returns the plan here, and the step is its
-- current one. `step_result_ref`, a SHA-256 over canonical JSON, is the argument `ref_of`.
use Prim.Native.String.{◌++◌}
use moduagent.Base.{
  ◌+◌, String, Bool, true, false, not, Option, none, some, List, [], ◌∷◌, Result, ok, raise, guard,
  ◌>>◌, all, contains, set, if◌then◌else◌, insert, is_empty, str_eq,
}
use moduagent.Decision.Planning.Steps.{
  PlanStep, PlanStepStatus, pending, in_progress, completed, Error, value_error, runtime_error,
}
use moduagent.Decision.Planning.Plan.{Plan, move_to_next_open_step, current}
use moduagent.Decision.Planning.Results.{StepResult}

abbrev pub is_completed : PlanStepStatus → Bool
is_completed completed = true
is_completed _ = false

abbrev pub completed_ids : List PlanStep → List String
completed_ids [] = []
completed_ids (s ∷ ss) =
    let rest = completed_ids ss in if is_completed s.status then s.step_id ∷ rest else rest

abbrev pub with_current : Plan → PlanStep → Plan
with_current p s = record p { steps = set p.steps p.current_index s }

-- A pending step whose dependencies are completed is started.
unfoldable pub start_step : Plan → PlanStep → PlanStepStatus → Plan
start_step p s pending =
    if all (λ d. contains d (completed_ids p.steps)) s.dependencies
    then with_current p (record s { status = in_progress })
    else p
start_step p s _ = p

unfoldable pub start_open : Plan → Option PlanStep → Plan
unfolding start_step
start_open p none = p
start_open p (some s) = start_step p s s.status

-- `start_current`
unfoldable pub start_current : Plan → Plan
unfolding start_open
start_current p = let q = move_to_next_open_step p in start_open q (current q)

abbrev pub is_committable : PlanStepStatus → Bool
is_committable pending = true
is_committable in_progress = true
is_committable _ = false

abbrev pub names : Option String → String → Bool
names none step_id = true
names (some id) step_id = str_eq step_id id

-- The writes of `commit`.
unfoldable pub committed : Plan → PlanStep → String → Plan
committed p s reference =
    let done = with_current p (record s { status = completed; result_ref = some reference }) in
    start_current (move_to_next_open_step (record done { current_index = p.current_index + 1 }))

unfoldable pub commit_current : Plan → String → Option String → Option PlanStep → Result Error Plan
commit_current p reference step_id none = raise runtime_error
commit_current p reference step_id (some s) = do
  guard (names step_id s.step_id) value_error
  guard (not (is_empty reference)) value_error
  guard (is_committable s.status) runtime_error
  ok (committed p s reference)

-- `commit` with the text of a reference.
unfoldable pub commit : Plan → String → Option String → Result Error Plan
commit p reference step_id = commit_current p reference step_id (current p)

-- `commit` with a `StepResult`.
unfoldable pub commit_result :
    (StepResult → String) → Plan → StepResult → Option String → Result Error Plan
commit_result ref_of p r none = commit p (ref_of r) (some r.step_id)
commit_result ref_of p r (some step_id) = commit p (ref_of r) (some step_id)

unfoldable pub after_commit : Plan → Result Error Plan → Plan × Result Error (Unit {0})
after_commit p (raise e) = (p, raise e)
after_commit p (ok q) = (q, ok tt)

abbrev pub with_output : Option String → PlanStep → PlanStep
with_output none s = s
with_output (some output) s = record s { metadata = insert "legacy_result" output s.metadata }

unfoldable pub advance_current :
    Plan → Option String → Option PlanStep → Plan × Result Error (Unit {0})
unfolding after_commit
advance_current p output none = (p, ok tt)
advance_current p output (some s) =
    let noted = with_current p (with_output output s) in
    after_commit noted (commit noted ("legacy:" ++ s.step_id) (some s.step_id))

-- `advance`; the output stays noted also when the commit raises.
unfoldable pub advance : Plan → Option String → Plan × Result Error (Unit {0})
advance p output = advance_current p output (current p)
