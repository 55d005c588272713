-- ===== src/Decision/Execution/Steps.antt =====
-- moduagent/decision/planning.py: changes of a plan's steps that keep the committed results' steps.
use moduagent.Base.{
  ℕ, zero, suc, ◌≡◌, refl, ◌∙◌, String, true, false, Option, none, some, is_some, List, [], ◌∷◌,
  get_elem?, contains, is_unique, str_eq, eq_iff, eq_refl, arith, Bool-cases, inl, inr,
}
use moduagent.Decision.Planning.Steps.{
  PlanStep, PlanStepStatus, completed, pending, in_progress, blocked, failed, skipped,
}
use moduagent.Decision.Planning.Results.{StepResult}
use moduagent.Decision.Planning.Plan.{ids, graph, is_closed}
use moduagent.Decision.Planning.Moves.{is_completed}
use moduagent.Decision.Planning.Evolution.{Follows}
use moduagent.Decision.Execution.State.{find_step}
use moduagent.Decision.Execution.Checks.{is_committed, is_committed_as}

graph-cons :
    (x y : PlanStep) (xs ys : List PlanStep)
    → graph (y ∷ ys) ≡ graph (x ∷ xs)
    → (y.step_id ≡ x.step_id) × (graph ys ≡ graph xs)
graph-cons x y xs ys g = (cc, cc)

-- A step is found where its id stands first.
find_step-at :
    (step_id : String) (xs : List PlanStep) (s : PlanStep)
    → find_step step_id xs ≡ some s
    → (j : ℕ) × (get_elem? xs j ≡ some s)
      × ((ys : List PlanStep) → graph ys ≡ graph xs → find_step step_id ys ≡ get_elem? ys j)
find_step-at step_id [] s h = cc
find_step-at step_id (x ∷ xs) s h = elim (Bool-cases (str_eq x.step_id step_id)) [
  | inl e ↦ (0, ground arith, at_head e)
  | inr e ↦
      let (j, here, there) = find_step-at step_id xs s (ground arith) in
      (suc j, here, later e j there)
]
  where
    at_head :
        str_eq x.step_id step_id ≡ true
        → (ys : List PlanStep) → graph ys ≡ graph (x ∷ xs)
        → find_step step_id ys ≡ get_elem? ys 0
    at_head e [] g = cc
    at_head e (y ∷ ys) g = rw ((graph-cons x y xs ys g).0, e) refl

    later :
        str_eq x.step_id step_id ≡ false
        → (j : ℕ)
        → ((ys : List PlanStep) → graph ys ≡ graph xs → find_step step_id ys ≡ get_elem? ys j)
        → (ys : List PlanStep) → graph ys ≡ graph (x ∷ xs)
        → find_step step_id ys ≡ get_elem? ys (suc j)
    later e j f [] g = cc
    later e j f (y ∷ ys) g = rw ((graph-cons x y xs ys g).0, e) (f ys (graph-cons x y xs ys g).1)

pub find_step-graph :
    (step_id : String) (xs ys : List PlanStep)
    → graph ys ≡ graph xs
    → is_some (find_step step_id ys) ≡ is_some (find_step step_id xs)
find_step-graph step_id [] [] g = refl
find_step-graph step_id [] (y ∷ ys) g = cc
find_step-graph step_id (x ∷ xs) [] g = cc
find_step-graph step_id (x ∷ xs) (y ∷ ys) g =
    let (same, rest) = graph-cons x y xs ys g in
    rw same (ground (arith, find_step-graph step_id xs ys rest))

pub find_step-id :
    (step_id : String) (xs : List PlanStep) (s : PlanStep)
    → find_step step_id xs ≡ some s
    → str_eq s.step_id step_id ≡ true
find_step-id step_id [] s h = cc
find_step-id step_id (x ∷ xs) s h = ground (arith, find_step-id step_id xs s)

contains-get_elem? :
    (n : ℕ) (xs : List PlanStep) (s : PlanStep)
    → get_elem? xs n ≡ some s
    → contains s.step_id (ids xs) ≡ true
contains-get_elem? n [] s h = cc
contains-get_elem? zero (x ∷ xs) s h = ground (arith, eq_refl s.step_id)
contains-get_elem? (suc n) (x ∷ xs) s h = ground (arith, contains-get_elem? n xs s h)

-- Where the ids are unique, a step is found by its id.
pub find_step_unique :
    (n : ℕ) (xs : List PlanStep) (s : PlanStep)
    → is_unique (ids xs) ≡ true
    → get_elem? xs n ≡ some s
    → find_step s.step_id xs ≡ some s
find_step_unique n [] s u h = cc
find_step_unique zero (x ∷ xs) s u h = ground (arith, eq_refl s.step_id)
find_step_unique (suc n) (x ∷ xs) s u h =
    let inside = contains-get_elem? n xs s h in
    let rest = find_step_unique n xs s (ground arith) h in
    ground (arith, inside, rest, eq_iff x.step_id s.step_id)

pub completed_closed :
    (status : PlanStepStatus) → is_completed status ≡ true → is_closed status ≡ true
completed_closed completed h = refl
completed_closed pending h = cc
completed_closed in_progress h = cc
completed_closed blocked h = cc
completed_closed failed h = cc
completed_closed skipped h = cc

-- Steps that follow others still carry the committed results.
pub record Retains (ref_of : StepResult → String) (xs ys : List PlanStep) : Type 0 where
  pub same_graph : graph ys ≡ graph xs
  pub carries :
      (step_id : String) (r : StepResult)
      → is_committed ref_of xs step_id r ≡ true
      → is_committed ref_of ys step_id r ≡ true

module _ (ref_of : StepResult → String) where
  carried_at :
      (step_id : String) (r : StepResult) (xs ys : List PlanStep) (o : Option PlanStep)
      → find_step step_id xs ≡ o
      → Follows xs ys
      → is_committed_as ref_of r o ≡ true
      → is_committed_as ref_of r (find_step step_id ys) ≡ true
  carried_at step_id r xs ys none e f h = cc
  carried_at step_id r xs ys (some s) e f h =
      let (j, here, there) = find_step-at step_id xs s e in
      let stays = f.keeps_closed j s here (completed_closed s.status (ground arith)) in
      rw (there ys f.same_graph ∙ stays) h

  pub Follows-Retains : (xs ys : List PlanStep) → Follows xs ys → Retains ref_of xs ys
  Follows-Retains xs ys f = record {
    same_graph = f.same_graph;
    carries = λ step_id r h.
        let at = carried_at step_id r xs ys (find_step step_id xs) refl f (ground arith) in
        ground (arith, at);
  }
