-- ===== src/Decision/Planning/Progress.antt =====
-- moduagent/decision/planning.py: sequences of transitions of a plan.
use moduagent.Base.{
  suc, ◌+◌, ◌≡◌, refl, sym, subst, ap, ◌∙◌, String, true, false, Option, none, some, List, all,
  contains, is_empty, get_elem?, set, drop, drop-get_elem?, get_elem?-set, Bool-cases, inl, inr,
  arith,
}
use moduagent.Decision.Planning.Steps.{
  PlanStep, PlanStepStatus, pending, in_progress, completed, blocked, failed, skipped,
}
use moduagent.Decision.Planning.Plan.{
  Plan, is_closed, closed_count, move_to_next_open_step, current,
}
use moduagent.Decision.Planning.Moves.{
  with_current, start_step, start_open, start_current, completed_ids, committed, is_committable,
}
use moduagent.Decision.Planning.Evolution.{
  Follows, Follows-refl, Follows-trans, set-Follows, open_count, open_count-set_open,
  open_count-set_closed, closed_before, closed_before-set, closed_before-add, closed_count-add,
  closed_before-set_next, first_open,
}

-- The steps before the current one are closed, and the current one is open.
pub record Inv (p : Plan) : Type 0 where
  pub behind : closed_before p.current_index p.steps ≡ true
  pub here : closed_count (drop p.current_index p.steps) ≡ 0

-- A transition that closes no step.
pub record Keeps (xs ys : List PlanStep) : Type 0 where
  pub follows : Follows xs ys
  pub same_open : open_count ys ≡ open_count xs

pub move-Inv :
    (p : Plan) → closed_before p.current_index p.steps ≡ true → Inv (move_to_next_open_step p)
unfolding move_to_next_open_step
move-Inv p h = record {
  behind = closed_before-add p.current_index p.steps h;
  here = closed_count-add p.current_index p.steps h;
}

-- A write of an open step over the current, open one.
pub with_current-Inv :
    (p : Plan) (s a : PlanStep)
    → current p ≡ some s
    → is_closed a.status ≡ false
    → Inv p
    → Inv (with_current p a)
unfolding current
with_current-Inv p s a c o i = record {
  behind = closed_before-set p.current_index p.steps a ∙ i.behind;
  here =
      rw
        (drop-get_elem? (set p.steps p.current_index a) p.current_index a
          (get_elem?-set p.steps p.current_index s a c))
        (rw o refl);
}

pub with_current-Keeps :
    (p : Plan) (s a : PlanStep)
    → current p ≡ some s
    → is_closed s.status ≡ false
    → is_closed a.status ≡ false
    → a.step_id ≡ s.step_id
    → a.dependencies ≡ s.dependencies
    → Keeps p.steps (with_current p a).steps
unfolding current
with_current-Keeps p s a c o o' e d = record {
  follows = set-Follows p.steps p.current_index s a c o e d;
  same_open = open_count-set_open p.steps p.current_index s a c o o';
}

pub Keeps-refl : (xs : List PlanStep) → Keeps xs xs
Keeps-refl xs = record { follows = Follows-refl xs; same_open = refl }

-- The current step is open.
pub current_open :
    (p : Plan) (s : PlanStep) → Inv p → current p ≡ some s → is_closed s.status ≡ false
unfolding current
current_open p s i c =
    first_open s (drop (suc p.current_index) p.steps)
      (ap closed_count (sym (drop-get_elem? p.steps p.current_index s c)) ∙ i.here)

start_step-facts :
    (p : Plan) (s : PlanStep) (status : PlanStepStatus)
    → s.status ≡ status
    → current p ≡ some s
    → Inv p
    → Inv (start_step p s status) × Keeps p.steps (start_step p s status).steps
unfolding start_step
start_step-facts p s pending e c i =
    elim (Bool-cases (all (λ d. contains d (completed_ids p.steps)) s.dependencies)) [
      | inr a ↦ rw a (i, Keeps-refl p.steps)
      | inl a ↦ rw a (
        with_current-Inv p s (record s { status = in_progress }) c refl i,
        with_current-Keeps p s (record s { status = in_progress }) c (current_open p s i c) refl
            refl refl,
      )
    ]
start_step-facts p s in_progress e c i = (i, Keeps-refl p.steps)
start_step-facts p s completed e c i = (i, Keeps-refl p.steps)
start_step-facts p s blocked e c i = (i, Keeps-refl p.steps)
start_step-facts p s failed e c i = (i, Keeps-refl p.steps)
start_step-facts p s skipped e c i = (i, Keeps-refl p.steps)

start_open-facts :
    (p : Plan) (o : Option PlanStep)
    → current p ≡ o
    → Inv p
    → Inv (start_open p o) × Keeps p.steps (start_open p o).steps
unfolding start_open
start_open-facts p none c i = (i, Keeps-refl p.steps)
start_open-facts p (some s) c i = start_step-facts p s s.status refl c i

-- Starting a plan whose steps before the current one are closed.
pub start_current-facts :
    (p : Plan)
    → closed_before p.current_index p.steps ≡ true
    → Inv (start_current p) × Keeps p.steps (start_current p).steps
unfolding start_current move_to_next_open_step
start_current-facts p h =
    start_open-facts (move_to_next_open_step p) (current (move_to_next_open_step p)) refl
      (move-Inv p h)

start_step-version :
    (p : Plan) (s : PlanStep) (status : PlanStepStatus)
    → (start_step p s status).version ≡ p.version
unfolding start_step
start_step-version p s pending = ground arith
start_step-version p s in_progress = refl
start_step-version p s completed = refl
start_step-version p s blocked = refl
start_step-version p s failed = refl
start_step-version p s skipped = refl

start_open-version : (p : Plan) (o : Option PlanStep) → (start_open p o).version ≡ p.version
unfolding start_open
start_open-version p none = refl
start_open-version p (some s) = start_step-version p s s.status

pub start_current-version : (p : Plan) → (start_current p).version ≡ p.version
unfolding start_current move_to_next_open_step
start_current-version p =
    start_open-version (move_to_next_open_step p) (current (move_to_next_open_step p))

committable_open :
    (status : PlanStepStatus) → is_committable status ≡ true → is_closed status ≡ false
committable_open pending h = refl
committable_open in_progress h = refl
committable_open completed h = cc
committable_open blocked h = cc
committable_open failed h = cc
committable_open skipped h = cc

-- What a commit does to the plan.
pub record Committed (p : Plan) (s : PlanStep) (reference : String) (q : Plan) : Type 0 where
  pub was_current : current p ≡ some s
  pub was_committable : is_committable s.status ≡ true
  pub has_reference : is_empty reference ≡ false
  pub follows : Follows p.steps q.steps
  pub same_version : q.version ≡ p.version
  pub one_less : suc (open_count q.steps) ≡ open_count p.steps
  pub written :
      get_elem? q.steps p.current_index
      ≡ some (record s { status = completed; result_ref = some reference })

pub committed-facts :
    (p : Plan) (s : PlanStep) (reference : String)
    → current p ≡ some s
    → is_committable s.status ≡ true
    → is_empty reference ≡ false
    → Inv p
    → Inv (committed p s reference) × Committed p s reference (committed p s reference)
unfolding committed move_to_next_open_step current
committed-facts p s reference c k n i =
    let s' = record s { status = completed; result_ref = some reference } in
    let o = committable_open s.status k in
    let steps = set p.steps p.current_index s' in
    let next = closed_before-set_next p.current_index p.steps s s' c refl i.behind in
    let moved =
      move-Inv (record p { steps = steps; current_index = p.current_index + 1 })
        (subst (λ n. closed_before n steps ≡ true) {x = suc p.current_index} (omega arith) next) in
    let (inv, keeps) = start_current-facts _ moved.behind in
    let written = get_elem?-set p.steps p.current_index s s' c in
    (
      inv,
      record {
        was_current = c;
        was_committable = k;
        has_reference = n;
        follows =
            Follows-trans _ _ _ (set-Follows p.steps p.current_index s s' c o refl refl)
              keeps.follows;
        same_version = start_current-version _;
        one_less =
            ap suc keeps.same_open ∙ open_count-set_closed p.steps p.current_index s s' c o refl;
        written = keeps.follows.keeps_closed p.current_index s' written refl;
      },
    )
