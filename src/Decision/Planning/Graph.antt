-- ===== src/Decision/Planning/Graph.antt =====
-- moduagent/decision/planning.py: `Plan._validate_dependency_graph`, a depth-first search. A dict of
-- the dependencies is an association list; the recursion runs on fuel.
use moduagent.Base.{
  ℕ, zero, suc, String, Option, none, some, List, [], ◌∷◌, contains, if◌then◌else◌, Dict, lookup,
}

-- How a search of a step ends: with the steps that are visited, at a step that is being visited, at a
-- step that is missing (KeyError), or for want of fuel.
pub data Search : Type 0 where
  visited : List String → Search
  cycle missing out_of_fuel : Search

infixr 20 ◌then_visit◌
abbrev pub ◌then_visit◌ : Search → (List String → Search) → Search
(visited done) then_visit next = next done
cycle then_visit next = cycle
missing then_visit next = missing
out_of_fuel then_visit next = out_of_fuel

abbrev pub finish : String → Search → Search
finish step_id (visited done) = visited (step_id ∷ done)
finish step_id r = r

abbrev pub found : Option (List String) → (List String → Search) → Search
found none next = missing
found (some ds) next = next ds

-- A loop over steps, each visited with the steps that are visited by then.
unfoldable pub for_each : (List String → String → Search) → List String → List String → Search
for_each go done [] = visited done
for_each go done (d ∷ ds) = go done d then_visit λ now. for_each go now ds

module _ (dependencies : Dict (List String)) where
  -- `visit`, with the steps that are being visited and the steps that are visited.
  unfoldable pub visit : ℕ → List String → List String → String → Search
  visit zero visiting done step_id = out_of_fuel
  visit (suc fuel) visiting done step_id =
      let go : List String → String → Search = λ now d. visit fuel (step_id ∷ visiting) now d in
      if contains step_id visiting
      then cycle
      else if contains step_id done
      then visited done
      else found (lookup step_id dependencies) (λ ds. finish step_id (for_each go done ds))

  -- The loop over the steps.
  abbrev pub visit_all : ℕ → List String → Search
  visit_all fuel steps = for_each (λ now d. visit fuel [] now d) [] steps
