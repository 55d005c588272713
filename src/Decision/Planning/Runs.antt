-- ===== src/Decision/Planning/Runs.antt =====
-- moduagent/decision/planning.py: plans through any sequence of transitions.
use Prim.Native.String.{◌++◌}
use moduagent.Base.{
  ℕ, ◌+◌, ◌≡◌, refl, sym, subst, ap, ◌∙◌, String, Bool, true, false, not, ◌&&◌, Option, none, some,
  List, [], ◌∷◌, Result, ok, raise, guard-ok, is_empty, Option-cases, Result-cases, inl, inr, arith,
  is_some,
}
use moduagent.Decision.Planning.Steps.{PlanStep, Error, value_error, runtime_error}
use moduagent.Decision.Planning.Plan.{Plan, is_closed, current}
use moduagent.Decision.Planning.Moves.{
  with_current, start_current, committed, commit, commit_current, advance, advance_current,
  after_commit, names, is_committable, with_output,
}
use moduagent.Decision.Planning.Evolution.{Follows, Follows-refl, Follows-trans, open_count}
use moduagent.Decision.Planning.Progress.{
  Inv, Keeps, current_open, with_current-Inv, with_current-Keeps, start_current-facts, Committed,
  committed-facts,
}

pub data Move : Type 0 where
  starts : Move
  commits : String → Option String → Move
  advances : Option String → Move

-- The plan after a move; a move that raises may have noted an output.
unfoldable pub apply : Plan → Move → Plan
unfolding after_commit
apply p starts = start_current p
apply p (commits reference step_id) = (after_commit p (commit p reference step_id)).0
apply p (advances output) = (advance p output).0

unfoldable pub run : Plan → List Move → Plan
run p [] = p
run p (m ∷ ms) = run (apply p m) ms

pub commit-Inv :
    (p q : Plan) (reference : String) (step_id : Option String)
    → Inv p
    → commit p reference step_id ≡ ok q
    → (s : PlanStep) × (names step_id s.step_id ≡ true) × Inv q × Committed p s reference q
unfolding commit commit_current
commit-Inv p q reference step_id i h = elim (Option-cases (current p)) [
  | inl c ↦ let r = (ap (commit_current p reference step_id) (sym c) ∙ h) in cc
  | inr (s, c) ↦
      let h = ap (commit_current p reference step_id) (sym c) ∙ h in
      let (named, h1) = guard-ok (names step_id s.step_id) value_error _ h in
      let (nonempty, h2) = guard-ok (not (is_empty reference)) value_error _ h1 in
      let (ready, h3) = guard-ok (is_committable s.status) runtime_error _ h2 in
      let same : committed p s reference ≡ q = ground (arith, h3) in
      let (inv, facts) = committed-facts p s reference c ready (ground (arith, nonempty)) i in
      (s, named, subst Inv same inv, subst (Committed p s reference) same facts)
]

abbrev pub is_ok : {A : Type 0} → Result Error A → Bool
is_ok (ok x) = true
is_ok (raise e) = false

-- Does the move commit a step?
unfoldable pub commits_step : Plan → Move → Bool
commits_step p starts = false
commits_step p (commits reference step_id) = is_ok (commit p reference step_id)
commits_step p (advances output) = is_some (current p) && is_ok (advance p output).1

abbrev pub one_if : Bool → ℕ
one_if true = 1
one_if false = 0

unfoldable pub commit_total : Plan → List Move → ℕ
commit_total p [] = 0
commit_total p (m ∷ ms) = let rest = commit_total (apply p m) ms in one_if (commits_step p m) + rest

-- What a step from one plan to the next keeps, with or without a commit.
pub record Advances (p q : Plan) (commits_one : Bool) : Type 0 where
  pub invariant : Inv q
  pub follows : Follows p.steps q.steps
  pub count : open_count q.steps + one_if commits_one ≡ open_count p.steps

stays : (p : Plan) → Inv p → Advances p p false
stays p i = record { invariant = i; follows = Follows-refl p.steps; count = omega arith }

after_commit-Advances :
    (p : Plan) (reference : String) (step_id : Option String)
    → Inv p
    → Advances p
        (after_commit p (commit p reference step_id)).0
        (is_ok (commit p reference step_id))
unfolding after_commit
after_commit-Advances p reference step_id i = elim (Result-cases (commit p reference step_id)) [
  | inl (q, e) ↦
      let (s, _, inv, facts) = commit-Inv p q reference step_id i e in
      rw e (record {
        invariant = inv;
        follows = facts.follows;
        count = let h = facts.one_less in omega arith;
      })
  | inr (x, e) ↦ rw e (stays p i)
]

after_commit-is_ok : (p : Plan) (r : Result Error Plan) → is_ok (after_commit p r).1 ≡ is_ok r
unfolding after_commit
after_commit-is_ok p (ok q) = refl
after_commit-is_ok p (raise e) = refl

with_output-status :
    (output : Option String) (s : PlanStep) → (with_output output s).status ≡ s.status
with_output-status none s = refl
with_output-status (some o) s = refl

with_output-step_id :
    (output : Option String) (s : PlanStep) → (with_output output s).step_id ≡ s.step_id
with_output-step_id none s = refl
with_output-step_id (some o) s = refl

with_output-dependencies :
    (output : Option String) (s : PlanStep) → (with_output output s).dependencies ≡ s.dependencies
with_output-dependencies none s = refl
with_output-dependencies (some o) s = refl

then-Advances : {p q r : Plan} {b : Bool} → Keeps p.steps q.steps → Advances q r b → Advances p r b
then-Advances {p} {q} {r} k a = record {
  invariant = a.invariant;
  follows = Follows-trans p.steps q.steps r.steps k.follows a.follows;
  count = a.count ∙ k.same_open;
}

advance_current-Advances :
    (p : Plan) (output : Option String) (o : Option PlanStep)
    → current p ≡ o
    → Inv p
    → Advances p (advance_current p output o).0 (is_some o && is_ok (advance_current p output o).1)
unfolding advance_current
advance_current-Advances p output none c i = stays p i
advance_current-Advances p output (some s) c i =
    let noted = with_current p (with_output output s) in
    let reference = "legacy:" ++ s.step_id in
    let open_now = current_open p s i c in
    let open_after = ap is_closed (with_output-status output s) ∙ open_now in
    let inv = with_current-Inv p s (with_output output s) c open_after i in
    let keeps =
      with_current-Keeps p s (with_output output s) c open_now open_after
        (with_output-step_id output s) (with_output-dependencies output s) in
    rw (after_commit-is_ok noted (commit noted reference (some s.step_id)))
      (then-Advances keeps (after_commit-Advances noted reference (some s.step_id) inv))

pub apply-Advances : (p : Plan) (m : Move) → Inv p → Advances p (apply p m) (commits_step p m)
unfolding apply commits_step advance
apply-Advances p starts i =
    let (inv, keeps) = start_current-facts p i.behind in
    record {
      invariant = inv;
      follows = keeps.follows;
      count = let h = keeps.same_open in omega arith;
    }
apply-Advances p (commits reference step_id) i = after_commit-Advances p reference step_id i
apply-Advances p (advances output) i = advance_current-Advances p output (current p) refl i
