-- ===== src/Decision/Planning/Outcome.antt =====
-- moduagent/decision/planning.py: what holds of a plan after any sequence of transitions.
use moduagent.Base.{
  ℕ, zero, suc, ◌+◌, ◌≡◌, refl, sym, subst, ap, ◌∙◌, String, Bool, true, false, ◌&&◌, Option, some,
  List, [], ◌∷◌, ok, raise, all, contains, contains-cons, all_mono, get_elem?, if◌then◌else◌, Dict,
  inl, inr, arith, eq_refl,
}
use moduagent.Decision.Planning.Steps.{PlanStep, value_error}
use moduagent.Decision.Planning.Plan.{
  Plan, graph, is_closed, move_to_next_open_step, current, post_init,
}
use moduagent.Decision.Planning.Moves.{commit, names}
use moduagent.Decision.Planning.Evolution.{
  Follows, Follows-refl, Follows-trans, open_count, closed_before,
}
use moduagent.Decision.Planning.Progress.{Inv, move-Inv, Committed}
use moduagent.Decision.Planning.Order.{ordered_from}
use moduagent.Decision.Planning.Acceptance.{is_accepted, post_init_lem}
use moduagent.Decision.Planning.Runs.{Move, apply, run, commit-Inv, commit_total, apply-Advances}

-- The ids of the steps that are completed or skipped.
abbrev pub closed_ids : List PlanStep → List String
closed_ids [] = []
closed_ids (s ∷ ss) =
    let rest = closed_ids ss in if is_closed s.status then s.step_id ∷ rest else rest

run-Inv : (p : Plan) (ms : List Move) → Inv p → Inv (run p ms)
unfolding run
run-Inv p [] i = i
run-Inv p (m ∷ ms) i = run-Inv (apply p m) ms (apply-Advances p m i).invariant

run-Follows : (p : Plan) (ms : List Move) → Inv p → Follows p.steps (run p ms).steps
unfolding run
run-Follows p [] i = Follows-refl p.steps
run-Follows p (m ∷ ms) i =
    let a = apply-Advances p m i in
    Follows-trans _ _ _ a.follows (run-Follows (apply p m) ms a.invariant)

run-open_count :
    (p : Plan) (ms : List Move)
    → Inv p
    → open_count (run p ms).steps + commit_total p ms ≡ open_count p.steps
unfolding run commit_total
run-open_count p [] i = omega arith
run-open_count p (m ∷ ms) i =
    let a = apply-Advances p m i in
    let h = run-open_count (apply p m) ms a.invariant in let k = a.count in omega arith

pub accepted_cases :
    (b : Bool) (x y : Plan) → (if b then ok x else raise value_error) ≡ ok y → (b ≡ true) × (y ≡ x)
accepted_cases false x y h = cc
accepted_cases true x y h = (refl, cc)

-- A plan that was accepted at its first step, and where it stands then.
accepted_facts :
    (p q : Plan)
    → p.current_index ≡ 0
    → post_init p ≡ ok q
    → (q ≡ move_to_next_open_step p) × (ordered_from [] p.steps ≡ true)
accepted_facts p q z h =
    let (shape, moved) =
      accepted_cases (is_accepted p) (move_to_next_open_step p) q (sym (post_init_lem p) ∙ h) in
    (moved, ground arith)

accepted-Inv : (p q : Plan) → p.current_index ≡ 0 → post_init p ≡ ok q → Inv q
accepted-Inv p q z h =
    subst Inv (sym (accepted_facts p q z h).0)
      (move-Inv p (subst (λ n. closed_before n p.steps ≡ true) (sym z) refl))

abbrev pub ordered_by : List String → Dict (List String) → Bool
ordered_by seen [] = true
ordered_by seen ((id, ds) ∷ g) = all (λ d. contains d seen) ds && ordered_by (id ∷ seen) g

pub ordered_by-graph :
    (seen : List String) (ss : List PlanStep) → ordered_by seen (graph ss) ≡ ordered_from seen ss
ordered_by-graph seen [] = refl
ordered_by-graph seen (s ∷ ss) = rw (ordered_by-graph (s.step_id ∷ seen) ss) refl

-- The order of the steps is the graph's.
Follows-ordered :
    (xs ys : List PlanStep) → Follows xs ys → ordered_from [] xs ≡ true → ordered_from [] ys ≡ true
Follows-ordered xs ys f o =
    sym (ordered_by-graph [] ys) ∙ ap (ordered_by []) f.same_graph ∙ ordered_by-graph [] xs ∙ o

-- A step behind closed ones has its dependencies among the known texts.
dependencies_known :
    (known seen : List String) (ss : List PlanStep) (n : ℕ) (s : PlanStep)
    → ((d : String) → contains d seen ≡ true → contains d known ≡ true)
    → ((d : String) → contains d (closed_ids ss) ≡ true → contains d known ≡ true)
    → ordered_from seen ss ≡ true
    → closed_before n ss ≡ true
    → get_elem? ss n ≡ some s
    → all (λ d. contains d known) s.dependencies ≡ true
dependencies_known known seen [] n s h k o c g = cc
dependencies_known known seen (x ∷ xs) zero s h k o c g =
    all_mono (λ d. contains d seen) (λ d. contains d known) s.dependencies h (ground arith)
dependencies_known known seen (x ∷ xs) (suc n) s h k o c g =
    dependencies_known known (x.step_id ∷ seen) xs n s
      (λ d q. elim (contains-cons d x.step_id seen q) [
        | inl e ↦ rw e (k x.step_id (ground (arith, eq_refl x.step_id)))
        | inr e ↦ h d e
      ])
      (λ d q. k d (ground arith)) (ground arith) (ground arith) g

-- A plan that was accepted at its first step may go through any starts, commits and advances. A commit
-- that then succeeds completes the current step with the reference it is given, in place, and the id,
-- if one is given, is that step's. The step had every one of its dependencies completed or skipped.
pub commit-Committed :
    (p q : Plan) (ms : List Move) (reference : String) (step_id : Option String) (done : Plan)
    → p.current_index ≡ 0
    → post_init p ≡ ok q
    → commit (run q ms) reference step_id ≡ ok done
    → (s : PlanStep) × (names step_id s.step_id ≡ true)
      × (all (λ d. contains d (closed_ids (run q ms).steps)) s.dependencies ≡ true)
      × Committed (run q ms) s reference done
unfolding current move_to_next_open_step
commit-Committed p q ms reference step_id done z h c =
    let i = accepted-Inv p q z h in
    let now = run-Inv q ms i in
    let (moved, ordered) = accepted_facts p q z h in
    let still = subst (λ x. ordered_from [] x.steps ≡ true) (sym moved) ordered in
    let kept = Follows-ordered q.steps (run q ms).steps (run-Follows q ms i) still in
    let (s, named, _, facts) = commit-Inv (run q ms) done reference step_id now c in
    (
      s,
      named,
      dependencies_known (closed_ids (run q ms).steps) [] (run q ms).steps (run q ms).current_index
          s (λ d k. cc) (λ d k. k) kept now.behind facts.was_current,
      facts,
    )

-- From a plan that was accepted at its first step, any starts, commits and advances keep the ids and
-- the dependencies of the steps, and each step that is completed or skipped stays as it was.
pub run-keeps_closed :
    (p q : Plan) (ms later : List Move)
    → p.current_index ≡ 0
    → post_init p ≡ ok q
    → Follows (run q ms).steps (run (run q ms) later).steps
run-keeps_closed p q ms later z h =
    run-Follows (run q ms) later (run-Inv q ms (accepted-Inv p q z h))

-- From a plan that was accepted at its first step, the commits that succeed in any sequence of starts,
-- commits and advances, with the steps that are still open after it, are as many as the open steps
-- before it.
pub run-commit_total :
    (p q : Plan) (ms : List Move)
    → p.current_index ≡ 0
    → post_init p ≡ ok q
    → open_count (run q ms).steps + commit_total q ms ≡ open_count p.steps
unfolding move_to_next_open_step
run-commit_total p q ms z h =
    run-open_count q ms (accepted-Inv p q z h)
    ∙ ap (λ x. open_count x.steps) (accepted_facts p q z h).0
