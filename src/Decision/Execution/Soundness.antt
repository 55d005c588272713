-- ===== src/Decision/Execution/Soundness.antt =====
-- moduagent/decision/planning.py: a state that the checks of its plan and its own checks leave as it is.
use moduagent.Base.{
  ℕ, zero, suc, ◌+◌, ◌≡◌, refl, sym, ap, ◌∙◌, String, true, not, Option, none, some, List, [], ◌∷◌,
  map, ok, all, contains, is_unique, is_empty, length, get_elem?, drop, leb, eq_refl, arith, Dict,
  keys, all_entries,
}
use moduagent.Decision.Planning.Steps.{PlanStep}
use moduagent.Decision.Planning.Results.{StepResult}
use moduagent.Decision.Planning.Plan.{
  Plan, ids, graph, closed_count, current, move_to_next_open_step,
}
use moduagent.Decision.Planning.Plan as PlanCode
use moduagent.Decision.Planning.Evolution.{closed_before}
use moduagent.Decision.Planning.Order.{ordered_from}
use moduagent.Decision.Planning.Acceptance.{is_accepted, keys-graph, post_init_lem}
use moduagent.Decision.Planning.Progress.{Inv}
use moduagent.Decision.Planning.Outcome.{ordered_by, ordered_by-graph}
use moduagent.Decision.Execution.State.{ExecutionState, ActiveCall, current_id, id_of}
use moduagent.Decision.Execution.Checks.{
  is_committed, is_pending_for, is_in_plan, default_id, is_final_consistent, has_fingerprints,
  post_init,
}
use moduagent.Decision.Execution.CallFacts.{is_normal_call, normalized_calls-normal}
use moduagent.Decision.Execution.Steps.{find_step-graph}

pub record PlanSound (p : Plan) : Type 0 where
  pub inv : Inv p
  pub version : leb 1 p.version ≡ true
  pub unique : is_unique (ids p.steps) ≡ true
  pub ordered : ordered_from [] p.steps ≡ true

closed_before-le :
    (n : ℕ) (xs : List PlanStep) → closed_before n xs ≡ true → leb n (length xs) ≡ true
closed_before-le zero xs h = ground arith
closed_before-le (suc n) [] h = cc
closed_before-le (suc n) (x ∷ xs) h = ground (arith, closed_before-le n xs)

-- A plan that keeps the version and the graph of a sound one.
pub same-PlanSound :
    (p q : Plan)
    → q.version ≡ p.version
    → graph q.steps ≡ graph p.steps
    → Inv q
    → PlanSound p
    → PlanSound q
same-PlanSound p q v g i s = record {
  inv = i;
  version = ap (leb 1) v ∙ s.version;
  unique = ap is_unique (sym (keys-graph q.steps) ∙ ap keys g ∙ keys-graph p.steps) ∙ s.unique;
  ordered =
      sym (ordered_by-graph [] q.steps)
      ∙ ap (ordered_by []) g
      ∙ ordered_by-graph [] p.steps
      ∙ s.ordered;
}

moved_nowhere :
    (p : Plan) → closed_count (drop p.current_index p.steps) ≡ 0 → move_to_next_open_step p ≡ p
unfolding move_to_next_open_step
moved_nowhere p h =
    let same : p.current_index + closed_count (drop p.current_index p.steps) ≡ p.current_index =
      omega (arith, h) in
    ap (λ n. record p { current_index = n }) same

-- The checks of a plan accept a sound one and leave it as it is.
pub PlanSound-post_init : (p : Plan) → PlanSound p → PlanCode.post_init p ≡ ok p
PlanSound-post_init p s =
    let within = closed_before-le p.current_index p.steps s.inv.behind in
    let accepted : is_accepted p ≡ true = ground (arith, s.version, within, s.unique, s.ordered) in
    post_init_lem p ∙ rw accepted (ap ok (moved_nowhere p s.inv.here))

pub record IdSound (p : Plan) (step_id : Option String) : Type 0 where
  pub in_plan : is_in_plan p.steps step_id ≡ true
  pub settled : default_id step_id (current_id p) ≡ step_id

find_step-here : (n : ℕ) (xs : List PlanStep) → is_in_plan xs (id_of (get_elem? xs n)) ≡ true
find_step-here n [] = refl
find_step-here zero (x ∷ xs) = ground (arith, eq_refl x.step_id)
find_step-here (suc n) (x ∷ xs) = in_rest (get_elem? xs n) (find_step-here n xs)
  where
    in_rest :
        (o : Option PlanStep)
        → is_in_plan xs (id_of o) ≡ true
        → is_in_plan (x ∷ xs) (id_of o) ≡ true
    in_rest none h = refl
    in_rest (some s) h = ground arith

default_id_self : (o : Option String) → default_id o o ≡ o
default_id_self none = refl
default_id_self (some s) = refl

pub current_id-IdSound : (p : Plan) → IdSound p (current_id p)
unfolding current_id current
current_id-IdSound p = record {
  in_plan = find_step-here p.current_index p.steps;
  settled = default_id_self (current_id p);
}

id_of-graph :
    (n : ℕ) (xs ys : List PlanStep)
    → graph ys ≡ graph xs
    → id_of (get_elem? ys n) ≡ id_of (get_elem? xs n)
id_of-graph n [] [] g = refl
id_of-graph n [] (y ∷ ys) g = cc
id_of-graph n (x ∷ xs) [] g = cc
id_of-graph zero (x ∷ xs) (y ∷ ys) g = cc
id_of-graph (suc n) (x ∷ xs) (y ∷ ys) g = id_of-graph n xs ys (cc)

is_in_plan-graph :
    (step_id : Option String) (xs ys : List PlanStep)
    → graph ys ≡ graph xs
    → is_in_plan ys step_id ≡ is_in_plan xs step_id
is_in_plan-graph none xs ys g = refl
is_in_plan-graph (some s) xs ys g = find_step-graph s xs ys g

pub same-IdSound :
    (p q : Plan) (step_id : Option String)
    → q.current_index ≡ p.current_index
    → graph q.steps ≡ graph p.steps
    → IdSound p step_id
    → IdSound q step_id
unfolding current_id current
same-IdSound p q step_id n g s = record {
  in_plan = is_in_plan-graph step_id p.steps q.steps g ∙ s.in_plan;
  settled =
      ap (default_id step_id)
        (ap (λ k. id_of (get_elem? q.steps k)) n ∙ id_of-graph p.current_index p.steps q.steps g)
      ∙ s.settled;
}

pub record CallsSound (strip : String → String) (active : Dict ActiveCall) (seen : List String)
    : Type 0 where
  pub normal : all_entries (is_normal_call strip) active ≡ true
  pub unique : is_unique (keys active) ≡ true
  pub stripped : map strip seen ≡ seen
  pub nonempty : all (λ call_id. not (is_empty call_id)) seen ≡ true
  pub seen_unique : is_unique seen ≡ true
  pub listed : all (λ call_id. contains call_id seen) (keys active) ≡ true

pub record Sound (strip : String → String) (ref_of : StepResult → String) (st : ExecutionState)
    : Type 0 where
  pub plan : PlanSound st.plan
  pub id : IdSound st.plan st.current_step_id
  pub committed : all_entries (is_committed ref_of st.plan.steps) st.committed_results ≡ true
  pub pending : is_pending_for st.pending_step_result st.current_step_id ≡ true
  pub final : is_final_consistent st ≡ true
  pub fingerprints : has_fingerprints st.pending_tool_failure ≡ true
  pub calls : CallsSound strip st.active_tool_calls st.seen_tool_call_ids

-- The checks of a state accept a sound one and leave it as it is.
pub Sound-post_init :
    (strip : String → String) (ref_of : StepResult → String) (st : ExecutionState)
    → Sound strip ref_of st
    → post_init strip ref_of st ≡ ok st
unfolding post_init
Sound-post_init strip ref_of st s =
    rw
      (
        s.fingerprints,
        normalized_calls-normal strip st.active_tool_calls s.calls.normal s.calls.unique,
        s.calls.stripped,
        s.calls.nonempty,
        s.calls.seen_unique,
        s.calls.listed,
        s.id.settled,
        s.committed,
        s.pending,
        s.id.in_plan,
        s.final,
      )
      refl
