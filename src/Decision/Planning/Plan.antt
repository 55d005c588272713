-- ===== src/Decision/Planning/Plan.antt =====
-- moduagent/decision/planning.py: `Plan` and its `__post_init__`.
use moduagent.Base.{
  ℕ, suc, ◌+◌, String, Bool, true, false, not, ◌&&◌, Option, some, List, [], ◌∷◌, Result, ok, raise,
  guard, ◌>>◌, all, is_unique, contains, length, get_elem?, drop, leb, ltb, if◌then◌else◌, Dict,
  lookup, map,
}
use moduagent.Decision.Planning.Steps.{
  PlanStep, PlanStepStatus, completed, skipped, Error, value_error, key_error, recursion_error,
}
use moduagent.Decision.Planning.Graph.{Search, visited, cycle, missing, out_of_fuel, visit_all}

pub record Plan : Type 0 where
  pub steps : List PlanStep
  pub current_index : ℕ
  pub version : ℕ

abbrev pub ids : List PlanStep → List String
ids steps = map (λ s. s.step_id) steps

-- Completed or skipped.
abbrev pub is_closed : PlanStepStatus → Bool
is_closed completed = true
is_closed skipped = true
is_closed _ = false

-- The loop of `_move_to_next_open_step`, over the steps from the current one on.
abbrev pub closed_count : List PlanStep → ℕ
closed_count [] = 0
closed_count (s ∷ ss) = let rest = closed_count ss in if is_closed s.status then suc rest else 0

-- `_move_to_next_open_step`
unfoldable pub move_to_next_open_step : Plan → Plan
move_to_next_open_step p = record p {
  current_index = p.current_index + closed_count (drop p.current_index p.steps);
}

abbrev pub graph : List PlanStep → Dict (List String)
graph steps = map (λ s. (s.step_id, s.dependencies)) steps

-- The steps' positions, from a first one on.
abbrev pub positions : ℕ → List PlanStep → Dict ℕ
positions i [] = []
positions i (s ∷ ss) = (s.step_id, i) ∷ positions (suc i) ss

abbrev pub is_before : Option ℕ → Option ℕ → Bool
is_before (some i) (some j) = ltb i j
is_before _ _ = false

abbrev pub knows : List String → PlanStep → Bool
knows known s =
    all (λ d. contains d known) s.dependencies && not (contains s.step_id s.dependencies)

abbrev pub is_in_order : Dict ℕ → PlanStep → Bool
is_in_order at s = all (λ d. is_before (lookup d at) (lookup s.step_id at)) s.dependencies

-- What `_validate_dependency_graph` raises; the search has fuel for one visit more than there are
-- steps. Out of fuel stands for Python's own limit of recursion only in name: that limit, which a long
-- reversed chain of steps reaches first, is not modelled.
unfoldable pub raised_by : Search → Result Error (Unit {0})
raised_by (visited done) = ok tt
raised_by cycle = raise value_error
raised_by missing = raise key_error
raised_by out_of_fuel = raise recursion_error

unfoldable pub validate_dependency_graph : List PlanStep → Result Error (Unit {0})
validate_dependency_graph steps =
    raised_by (visit_all (graph steps) (suc (length steps)) (ids steps))

-- `Plan.__post_init__`
unfoldable pub post_init : Plan → Result Error Plan
post_init p = do
  guard (leb 1 p.version) value_error
  guard (leb p.current_index (length p.steps)) value_error
  guard (is_unique (ids p.steps)) value_error
  guard (all (knows (ids p.steps)) p.steps) value_error
  validate_dependency_graph p.steps
  guard (all (is_in_order (positions 0 p.steps)) p.steps) value_error
  ok (move_to_next_open_step p)

-- `current`
unfoldable pub current : Plan → Option PlanStep
current p = get_elem? p.steps p.current_index

abbrev pub is_nonempty : List PlanStep → Bool
is_nonempty [] = false
is_nonempty (s ∷ ss) = true

-- `complete`
unfoldable pub is_complete : Plan → Bool
is_complete p = is_nonempty p.steps && all (λ s. is_closed s.status) p.steps
