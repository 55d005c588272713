-- ===== src/Decision/Execution/Normality.antt =====
-- moduagent/decision/planning.py: the steps of a state's plan stay in the form that their checks leave.
use moduagent.Base.{
  ℕ, zero, suc, ◌+◌, ◌≡◌, refl, subst, String, not, Option, none, some, List, [], ◌∷◌, ok, guard-ok,
  get_elem?, set, is_empty, all, contains, arith, Bool-cases, inl, inr, str_eq,
}
use moduagent.Decision.Planning.Steps.{
  PlanStep, PlanStepStatus, pending, in_progress, completed, blocked, failed, skipped, value_error,
  runtime_error,
}
use moduagent.Decision.Planning.Reread.{NormalStep}
use moduagent.Decision.Planning.Plan.{Plan, current, is_closed, move_to_next_open_step}
use moduagent.Decision.Planning.Moves.{
  start_step, start_open, start_current, committed, commit, commit_current, completed_ids, names,
  is_committable,
}
use moduagent.Decision.Execution.Operations.{update_step, with_failure, fail_at, fail_step}
use moduagent.Decision.Execution.Calls.{with_attempt, count_at, count_attempt}

module _ (strip digest : String → String) where
  unfoldable pub AllNormal : List PlanStep → Type 0
  AllNormal [] = Unit
  AllNormal (s ∷ ss) = NormalStep strip digest s × AllNormal ss

  -- The form says nothing of the status, the attempts and the result.
  pub other_fields :
      (s : PlanStep) (status : PlanStepStatus) (attempts : ℕ) (ref : Option String)
      → NormalStep strip digest s
      → NormalStep strip digest
          (record s { status = status; attempt_count = attempts; result_ref = ref })
  other_fields s status attempts ref n = record {
    named = n.named;
    identified = n.identified;
    criteria = n.criteria;
    depends = n.depends;
    tools = n.tools;
    describes = n.describes;
    aims = n.aims;
    same_id = n.same_id;
    outputs = n.outputs;
  }

  set-AllNormal :
      (xs : List PlanStep) (i : ℕ) (a : PlanStep)
      → AllNormal xs
      → NormalStep strip digest a
      → AllNormal (set xs i a)
  unfolding AllNormal
  set-AllNormal [] i a n m = n
  set-AllNormal (x ∷ xs) zero a (n, ns) m = (m, ns)
  set-AllNormal (x ∷ xs) (suc i) a (n, ns) m = (n, set-AllNormal xs i a ns m)

  get-NormalStep :
      (xs : List PlanStep) (i : ℕ) (s : PlanStep)
      → AllNormal xs
      → get_elem? xs i ≡ some s
      → NormalStep strip digest s
  unfolding AllNormal
  get-NormalStep [] i s n h = cc
  get-NormalStep (x ∷ xs) zero s (n, ns) h = subst (NormalStep strip digest) (some_eq x s h) n
    where
      some_eq : (a b : PlanStep) → some a ≡ some b → a ≡ b
      some_eq a b e = cc
  get-NormalStep (x ∷ xs) (suc i) s (n, ns) h = get-NormalStep xs i s ns h

  update_step-AllNormal :
      (id : String) (f : PlanStep → PlanStep) (xs : List PlanStep)
      → ((s : PlanStep) → NormalStep strip digest s → NormalStep strip digest (f s))
      → AllNormal xs
      → AllNormal (update_step id f xs)
  unfolding AllNormal
  update_step-AllNormal id f [] k n = n
  update_step-AllNormal id f (x ∷ xs) k (n, ns) = elim (Bool-cases (str_eq x.step_id id)) [
    | inl e ↦ rw e (k x n, ns)
    | inr e ↦ rw e (n, update_step-AllNormal id f xs k ns)
  ]

  start_step-AllNormal :
      (p : Plan) (s : PlanStep) (status : PlanStepStatus)
      → AllNormal p.steps
      → NormalStep strip digest s
      → AllNormal (start_step p s status).steps
  unfolding start_step
  start_step-AllNormal p s pending n m =
      elim (Bool-cases (all (λ d. contains d (completed_ids p.steps)) s.dependencies)) [
        | inl e ↦ rw e (
            set-AllNormal p.steps p.current_index _ n
              (other_fields s in_progress s.attempt_count s.result_ref m))
        | inr e ↦ rw e n
      ]
  start_step-AllNormal p s in_progress n m = n
  start_step-AllNormal p s completed n m = n
  start_step-AllNormal p s blocked n m = n
  start_step-AllNormal p s failed n m = n
  start_step-AllNormal p s skipped n m = n

  start_open-AllNormal :
      (p : Plan) (o : Option PlanStep)
      → current p ≡ o
      → AllNormal p.steps
      → AllNormal (start_open p o).steps
  unfolding start_open current
  start_open-AllNormal p none c n = n
  start_open-AllNormal p (some s) c n =
      start_step-AllNormal p s s.status n (get-NormalStep p.steps p.current_index s n c)

  pub start_current-AllNormal : (p : Plan) → AllNormal p.steps → AllNormal (start_current p).steps
  unfolding start_current move_to_next_open_step
  start_current-AllNormal p n =
      start_open-AllNormal (move_to_next_open_step p) (current (move_to_next_open_step p)) refl n

  committed-AllNormal :
      (p : Plan) (s : PlanStep) (reference : String)
      → AllNormal p.steps
      → NormalStep strip digest s
      → AllNormal (committed p s reference).steps
  unfolding committed move_to_next_open_step
  committed-AllNormal p s reference n m = start_current-AllNormal _ (
      set-AllNormal p.steps p.current_index _ n
        (other_fields s completed s.attempt_count (some reference) m))

  commit_current-AllNormal :
      (p q : Plan) (reference : String) (step_id : Option String) (o : Option PlanStep)
      → current p ≡ o
      → AllNormal p.steps
      → commit_current p reference step_id o ≡ ok q
      → AllNormal q.steps
  unfolding commit_current current
  commit_current-AllNormal p q reference step_id none c n h = cc
  commit_current-AllNormal p q reference step_id (some s) c n h =
      let (_, h1) = guard-ok (names step_id s.step_id) value_error _ h in
      let (_, h2) = guard-ok (not (is_empty reference)) value_error _ h1 in
      let (_, h3) = guard-ok (is_committable s.status) runtime_error _ h2 in
      let same : committed p s reference ≡ q = ground (arith, h3) in
      subst (λ x. AllNormal x.steps) same
        (committed-AllNormal p s reference n (get-NormalStep p.steps p.current_index s n c))

  pub commit-AllNormal :
      (p q : Plan) (reference : String) (step_id : Option String)
      → AllNormal p.steps
      → commit p reference step_id ≡ ok q
      → AllNormal q.steps
  unfolding commit
  commit-AllNormal p q reference step_id n h =
      commit_current-AllNormal p q reference step_id (current p) refl n h

  with_failure-NormalStep :
      (s : PlanStep) → NormalStep strip digest s → NormalStep strip digest (with_failure s)
  with_failure-NormalStep s n = elim (Bool-cases (is_closed s.status)) [
    | inl e ↦ rw e n
    | inr e ↦ rw e (other_fields s failed s.attempt_count s.result_ref n)
  ]

  fail_at-AllNormal :
      (p : Plan) (o : Option PlanStep)
      → current p ≡ o
      → AllNormal p.steps
      → AllNormal (fail_at p o).steps
  unfolding current
  fail_at-AllNormal p none c n = n
  fail_at-AllNormal p (some s) c n =
      set-AllNormal p.steps p.current_index (with_failure s) n
        (with_failure-NormalStep s (get-NormalStep p.steps p.current_index s n c))

  pub fail_step-AllNormal :
      (p : Plan) (id : Option String) → AllNormal p.steps → AllNormal (fail_step p id).steps
  fail_step-AllNormal p none n = fail_at-AllNormal p (current p) refl n
  fail_step-AllNormal p (some id) n =
      update_step-AllNormal id with_failure p.steps with_failure-NormalStep n

  count_at-AllNormal :
      (p : Plan) (o : Option PlanStep)
      → current p ≡ o
      → AllNormal p.steps
      → AllNormal (count_at p o).steps
  unfolding current
  count_at-AllNormal p none c n = n
  count_at-AllNormal p (some s) c n = set-AllNormal p.steps p.current_index (with_attempt s) n (
      other_fields s s.status (s.attempt_count + 1) s.result_ref
        (get-NormalStep p.steps p.current_index s n c))

  pub count_attempt-AllNormal :
      (p : Plan) (id : Option String) → AllNormal p.steps → AllNormal (count_attempt p id).steps
  count_attempt-AllNormal p none n = count_at-AllNormal p (current p) refl n
  count_attempt-AllNormal p (some id) n =
      update_step-AllNormal id with_attempt p.steps
        (λ s m. other_fields s s.status (s.attempt_count + 1) s.result_ref m) n
