-- ===== src/Decision/Execution/Updates.antt =====
-- moduagent/decision/planning.py: changes of one step that leave it open or closed as it was.
use moduagent.Base.{
  ℕ, zero, suc, ◌≡◌, refl, ◌∙◌, String, Option, none, some, List, [], ◌∷◌, set, drop, str_eq, arith,
  Bool-cases, inl, inr,
}
use moduagent.Decision.Planning.Steps.{
  PlanStep, PlanStepStatus, completed, pending, in_progress, blocked, failed, skipped,
}
use moduagent.Decision.Planning.Results.{StepResult}
use moduagent.Decision.Planning.Plan.{Plan, graph, is_closed, closed_count, current}
use moduagent.Decision.Planning.Moves.{is_completed, with_current}
use moduagent.Decision.Planning.Evolution.{Follows-refl, closed_before, set-Follows}
use moduagent.Decision.Planning.Progress.{Inv, with_current-Inv, current_open}
use moduagent.Decision.Execution.State.{find_step}
use moduagent.Decision.Execution.Checks.{is_committed_as}
use moduagent.Decision.Execution.Operations.{update_step, with_failure, fail_at, fail_step}
use moduagent.Decision.Execution.Calls.{with_attempt, count_at, count_attempt}
use moduagent.Decision.Execution.Steps.{Retains, Follows-Retains}

pub record Minor (f : PlanStep → PlanStep) : Type 0 where
  pub same_id : (s : PlanStep) → (f s).step_id ≡ s.step_id
  pub same_dependencies : (s : PlanStep) → (f s).dependencies ≡ s.dependencies
  pub same_closed : (s : PlanStep) → is_closed (f s).status ≡ is_closed s.status
  pub same_completed : (s : PlanStep) → is_completed (f s).status ≡ is_completed s.status
  pub same_ref : (s : PlanStep) → (f s).result_ref ≡ s.result_ref

module _ (f : PlanStep → PlanStep) (m : Minor f) (step_id : String) where
  graph-update_step : (xs : List PlanStep) → graph (update_step step_id f xs) ≡ graph xs
  graph-update_step [] = refl
  graph-update_step (x ∷ xs) =
      ground (arith, graph-update_step xs, m.same_id x, m.same_dependencies x)

  closed_before-update_step :
      (n : ℕ) (xs : List PlanStep) → closed_before n (update_step step_id f xs) ≡ closed_before n xs
  closed_before-update_step zero xs = refl
  closed_before-update_step (suc n) [] = refl
  closed_before-update_step (suc n) (x ∷ xs) =
      ground (arith, closed_before-update_step n xs, m.same_closed x)

  closed_count-update_step :
      (xs : List PlanStep) → closed_count (update_step step_id f xs) ≡ closed_count xs
  closed_count-update_step [] = refl
  closed_count-update_step (x ∷ xs) = ground (arith, closed_count-update_step xs, m.same_closed x)

  closed_count-drop_update :
      (n : ℕ) (xs : List PlanStep)
      → closed_count (drop n (update_step step_id f xs)) ≡ closed_count (drop n xs)
  closed_count-drop_update zero xs = closed_count-update_step xs
  closed_count-drop_update (suc n) [] = refl
  closed_count-drop_update (suc n) (x ∷ xs) = elim (Bool-cases (str_eq x.step_id step_id)) [
    | inl e ↦ rw e refl
    | inr e ↦ rw e (closed_count-drop_update n xs)
  ]

  find_step-update_step :
      (ref_of : StepResult → String) (r : StepResult) (id : String) (xs : List PlanStep)
      → is_committed_as ref_of r (find_step id (update_step step_id f xs))
        ≡ is_committed_as ref_of r (find_step id xs)
  find_step-update_step ref_of r id [] = refl
  find_step-update_step ref_of r id (x ∷ xs) =
      ground
        (arith, find_step-update_step ref_of r id xs, m.same_id x, m.same_completed x, m.same_ref x)

  update_step-Retains :
      (ref_of : StepResult → String) (xs : List PlanStep)
      → Retains ref_of xs (update_step step_id f xs)
  update_step-Retains ref_of xs = record {
    same_graph = graph-update_step xs;
    carries = λ id r h. rw (find_step-update_step ref_of r id xs) h;
  }

  update_step-Inv : (p : Plan) → Inv p → Inv (record p { steps = update_step step_id f p.steps })
  update_step-Inv p i = record {
    behind = closed_before-update_step p.current_index p.steps ∙ i.behind;
    here = closed_count-drop_update p.current_index p.steps ∙ i.here;
  }

with_failure-Minor : Minor with_failure
with_failure-Minor = record {
  same_id = λ s. ground arith;
  same_dependencies = λ s. ground arith;
  same_closed = λ s. ground arith;
  same_completed = λ s. by_status s s.status refl;
  same_ref = λ s. ground arith;
}
  where
    by_status :
        (s : PlanStep) (status : PlanStepStatus)
        → s.status ≡ status
        → is_completed (with_failure s).status ≡ is_completed s.status
    by_status s pending e = rw e refl
    by_status s in_progress e = rw e refl
    by_status s completed e = rw e refl
    by_status s blocked e = rw e refl
    by_status s failed e = rw e refl
    by_status s skipped e = rw e refl

with_attempt-Minor : Minor with_attempt
with_attempt-Minor = record {
  same_id = λ s. refl;
  same_dependencies = λ s. refl;
  same_closed = λ s. refl;
  same_completed = λ s. refl;
  same_ref = λ s. refl;
}

-- A change of the current step, or of the step with an id.
abbrev pub update_at : (PlanStep → PlanStep) → Plan → Option PlanStep → Plan
update_at f p none = p
update_at f p (some s) = with_current p (f s)

pub record Rewrites (ref_of : StepResult → String) (p q : Plan) : Type 0 where
  pub inv : Inv q
  pub retains : Retains ref_of p.steps q.steps
  pub same_version : q.version ≡ p.version
  pub same_index : q.current_index ≡ p.current_index

module _ (f : PlanStep → PlanStep) (m : Minor f) (ref_of : StepResult → String) (p : Plan)
    (i : Inv p) where
  update_at-Rewrites : (o : Option PlanStep) → current p ≡ o → Rewrites ref_of p (update_at f p o)
  unfolding current
  update_at-Rewrites none c = record {
    inv = i;
    retains = Follows-Retains ref_of p.steps p.steps (Follows-refl p.steps);
    same_version = refl;
    same_index = refl;
  }
  update_at-Rewrites (some s) c =
      let open_now = current_open p s i c in
      let open_after = m.same_closed s ∙ open_now in
      record {
        inv = with_current-Inv p s (f s) c open_after i;
        retains = Follows-Retains ref_of p.steps (set p.steps p.current_index (f s)) (
            set-Follows p.steps p.current_index s (f s) c open_now (m.same_id s)
              (m.same_dependencies s));
        same_version = refl;
        same_index = refl;
      }

  update_step-Rewrites :
      (step_id : String) → Rewrites ref_of p (record p { steps = update_step step_id f p.steps })
  update_step-Rewrites step_id = record {
    inv = update_step-Inv f m step_id p i;
    retains = update_step-Retains f m step_id ref_of p.steps;
    same_version = refl;
    same_index = refl;
  }

-- `fail_current_step` and the retries change a plan in the same way.
fail_at_eq : (p : Plan) (o : Option PlanStep) → fail_at p o ≡ update_at with_failure p o
fail_at_eq p none = refl
fail_at_eq p (some s) = refl

count_at_eq : (p : Plan) (o : Option PlanStep) → count_at p o ≡ update_at with_attempt p o
count_at_eq p none = refl
count_at_eq p (some s) = refl

module _ (ref_of : StepResult → String) (p : Plan) (i : Inv p) where
  pub fail_step-Rewrites : (step_id : Option String) → Rewrites ref_of p (fail_step p step_id)
  fail_step-Rewrites none =
      rw (fail_at_eq p (current p))
        (update_at-Rewrites with_failure with_failure-Minor ref_of p i (current p) refl)
  fail_step-Rewrites (some step_id) =
      update_step-Rewrites with_failure with_failure-Minor ref_of p i step_id

  pub count_attempt-Rewrites :
      (step_id : Option String) → Rewrites ref_of p (count_attempt p step_id)
  count_attempt-Rewrites none =
      rw (count_at_eq p (current p))
        (update_at-Rewrites with_attempt with_attempt-Minor ref_of p i (current p) refl)
  count_attempt-Rewrites (some step_id) =
      update_step-Rewrites with_attempt with_attempt-Minor ref_of p i step_id
