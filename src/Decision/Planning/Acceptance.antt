-- ===== src/Decision/Planning/Acceptance.antt =====
-- moduagent/decision/planning.py: which plans `Plan.__post_init__` accepts.
use moduagent.Base.{
  ℕ, suc, ◌<◌, ◌≡◌, ◌≢◌, refl, String, Bool, true, false, ◌&&◌, Option, none, some, is_some, List,
  [], ◌∷◌, Result, ok, raise, guard, ◌>>◌, length, contains, contains-cons, all_mono, is_unique,
  all, all-contains, keys, if◌then◌else◌, lookup, str_eq, eq_iff, eq_refl, ltb→lt, leb, Bool-cases,
  inl, inr, arith, subst, ◌⊎◌,
}
use moduagent.Decision.Planning.Steps.{PlanStep, Error, value_error, recursion_error}
use moduagent.Decision.Planning.Graph.{Search, visited, cycle, missing, out_of_fuel, visit_all}
use moduagent.Decision.Planning.Search.{
  is_cycle, is_missing, is_out_of_fuel, visited_or_failed, for_each-ne, visit-ends, visit-finds,
  visit-acyclic, IsClosed,
}
use moduagent.Decision.Planning.Plan.{
  Plan, ids, graph, positions, is_before, is_in_order, knows, raised_by, validate_dependency_graph,
  post_init, move_to_next_open_step,
}
use moduagent.Decision.Planning.Order.{
  ordered_from, are_new, are_new-cons, are_new-nil, in_order-ordered,
}

absent_from :
    (x : String) (xs seen : List String)
    → contains x seen ≡ false
    → all (λ d. contains d seen) xs ≡ true
    → contains x xs ≡ false
absent_from x [] seen n a = refl
absent_from x (y ∷ ys) seen n a = ground (arith, absent_from x ys seen, eq_iff x y)

-- The steps behind `seen` know their dependencies.
knows_from :
    (known seen : List String) (ss : List PlanStep)
    → ((d : String) → contains d seen ≡ true → contains d known ≡ true)
    → ((d : String) → contains d (ids ss) ≡ true → contains d known ≡ true)
    → is_unique (ids ss) ≡ true
    → are_new seen (ids ss) ≡ true
    → ordered_from seen ss ≡ true
    → all (knows known) ss ≡ true
knows_from known seen [] h k u n o = refl
knows_from known seen (s ∷ ss) h k u n o =
    let stands =
      all_mono (λ d. contains d seen) (λ d. contains d known) s.dependencies h (ground arith) in
    let other = absent_from s.step_id s.dependencies seen (ground arith) (ground arith) in
    let rest =
      knows_from known (s.step_id ∷ seen) ss
        (λ d q. elim (contains-cons d s.step_id seen q) [
          | inl e ↦ rw e (k s.step_id (ground (arith, eq_refl s.step_id)))
          | inr e ↦ h d e
        ])
        (λ d q. k d (ground arith)) (ground arith)
        (are_new-cons s.step_id seen (ids ss) (ground arith) (ground arith)) (ground arith) in
    ground (arith, stands, other, rest)

entry :
    (p : PlanStep → Bool) (id : String) (ds : List String) (steps : List PlanStep)
    → all p steps ≡ true
    → lookup id (graph steps) ≡ some ds
    → (s : PlanStep) × (s.step_id ≡ id) × (s.dependencies ≡ ds) × (p s ≡ true)
unfolding lookup
entry p id ds [] a h = cc
entry p id ds (s ∷ ss) a h = elim (Bool-cases (str_eq s.step_id id)) [
  | inl e ↦ (s, (eq_iff s.step_id id).0 e, ground arith, ground arith)
  | inr e ↦ entry p id ds ss (ground arith) (ground arith)
]

found_in :
    (d : String) (steps : List PlanStep)
    → contains d (ids steps) ≡ true
    → is_some (lookup d (graph steps)) ≡ true
unfolding lookup
found_in d [] h = cc
found_in d (s ∷ ss) h = ground (arith, found_in d ss, eq_iff d s.step_id, eq_iff s.step_id d)

pub keys-graph : (steps : List PlanStep) → keys (graph steps) ≡ ids steps
keys-graph [] = refl
keys-graph (s ∷ ss) = rw (keys-graph ss) refl

length-ids : (steps : List PlanStep) → length (ids steps) ≡ length steps
length-ids [] = refl
length-ids (s ∷ ss) = rw (length-ids ss) refl

graph-IsClosed :
    (steps : List PlanStep) → all (knows (ids steps)) steps ≡ true → IsClosed (graph steps)
unfolding IsClosed
graph-IsClosed steps k id d ds h m =
    let (s, _, same, known) = entry (knows (ids steps)) id ds steps k h in
    found_in d steps
      (all-contains (λ e. contains e (ids steps)) d s.dependencies (ground arith) (rw same m))

abbrev position_or_0 : Option ℕ → ℕ
position_or_0 none = 0
position_or_0 (some i) = i

is_before-lt : (a b : Option ℕ) → is_before a b ≡ true → position_or_0 a < position_or_0 b
is_before-lt none b h = cc
is_before-lt (some i) none h = cc
is_before-lt (some i) (some j) h = ltb→lt i j h

module _ (steps : List PlanStep) where
  whole : Search
  whole = visit_all (graph steps) (suc (length steps)) (ids steps)

  whole-ends : whole ≢ out_of_fuel
  unfolding whole
  whole-ends = for_each-ne out_of_fuel _ (ids steps) [] is_out_of_fuel (λ now d m.
      visit-ends (graph steps) (suc (length steps)) [] now d refl refl
        (rw (keys-graph steps, length-ids steps) (omega arith)))

  whole-finds : all (knows (ids steps)) steps ≡ true → whole ≢ missing
  unfolding whole
  whole-finds k = for_each-ne missing _ (ids steps) [] is_missing (λ now d m.
      visit-finds (graph steps) (suc (length steps)) [] now d (graph-IsClosed steps k)
        (found_in d steps m))

  rank : String → ℕ
  rank d = position_or_0 (lookup d (positions 0 steps))

  whole-acyclic : all (is_in_order (positions 0 steps)) steps ≡ true → whole ≢ cycle
  unfolding whole rank
  whole-acyclic o = for_each-ne cycle _ (ids steps) [] is_cycle (λ now d m.
      visit-acyclic (graph steps) rank
        (λ id e ds h q.
          let (s, named, same, placed) = entry (is_in_order (positions 0 steps)) id ds steps o h in
          is_before-lt (lookup e (positions 0 steps)) (lookup id (positions 0 steps)) (
            subst
              (λ x. is_before (lookup e (positions 0 steps)) (lookup x (positions 0 steps)) ≡ true)
              named (all-contains _ e s.dependencies placed (rw same q))))
        (suc (length steps)) [] now d (λ v q. cc))

  known_ends :
      all (knows (ids steps)) steps ≡ true
      → (raised_by whole ≡ ok tt) ⊎ (raised_by whole ≡ raise value_error)
  unfolding raised_by
  known_ends k = end whole (whole-finds k) whole-ends
    where
      end :
          (r : Search)
          → r ≢ missing
          → r ≢ out_of_fuel
          → (raised_by r ≡ ok tt) ⊎ (raised_by r ≡ raise value_error)
      end (visited done) m o = inl refl
      end cycle m o = inr refl
      end missing m o = absurd (m refl)
      end out_of_fuel m o = absurd (o refl)

  acyclic_passes :
      all (knows (ids steps)) steps ≡ true
      → all (is_in_order (positions 0 steps)) steps ≡ true
      → raised_by whole ≡ ok tt
  unfolding raised_by
  acyclic_passes k o =
      let (done, e) = visited_or_failed whole (whole-acyclic o) (whole-finds k) whole-ends in
      rw e refl

  knows-ordered :
      is_unique (ids steps) ≡ true
      → ordered_from [] steps ≡ true
      → all (knows (ids steps)) steps ≡ true
  knows-ordered u o =
      knows_from (ids steps) [] steps (λ d h. cc) (λ d h. h) u (are_new-nil (ids steps)) o

-- The chain of checks, by what each of them implies.
chain :
    (version index unique known ordered placed : Bool) (search : Result Error (Unit {0})) (p : Plan)
    → (unique ≡ true → placed ≡ ordered)
    → (unique ≡ true → ordered ≡ true → known ≡ true)
    → (known ≡ true → (search ≡ ok tt) ⊎ (search ≡ raise value_error))
    → (known ≡ true → placed ≡ true → search ≡ ok tt)
    → (guard version value_error
        >> (guard index value_error
            >> (guard unique value_error
                >> (guard known value_error >> (search >> (guard placed value_error >> ok p))))))
      ≡ (if version && (index && (unique && ordered)) then ok p else raise value_error)
chain false i u k o q g p a b c d = refl
chain true false u k o q g p a b c d = refl
chain true true false k o q g p a b c d = refl
chain true true true false true q g p a b c d = let h = b refl refl in cc
chain true true true false false q g p a b c d = refl
chain true true true true true q g p a b c d = rw (d refl (a refl), a refl) refl
chain true true true true false q g p a b c d = elim (c refl) [
  | inl e ↦ rw (e, a refl) refl
  | inr e ↦ rw e refl
]

-- What the checks of a plan come to: a version and an index within range, unique ids, and steps that
-- depend on steps before them.
abbrev pub is_accepted : Plan → Bool
is_accepted p =
    leb 1 p.version
    && (leb p.current_index (length p.steps)
        && (is_unique (ids p.steps) && ordered_from [] p.steps))

-- Making a plan succeeds exactly when its version and index are in range, its ids are unique and each
-- step depends on steps before it, and then moves to the next open step; otherwise it raises a
-- ValueError. The search for a cycle always ends and never misses a step.
pub post_init_lem :
    (p : Plan)
    → post_init p ≡ (if is_accepted p then ok (move_to_next_open_step p) else raise value_error)
unfolding post_init validate_dependency_graph whole
post_init_lem p =
    chain (leb 1 p.version) (leb p.current_index (length p.steps)) (is_unique (ids p.steps))
      (all (knows (ids p.steps)) p.steps) (ordered_from [] p.steps)
      (all (is_in_order (positions 0 p.steps)) p.steps) (validate_dependency_graph p.steps)
      (move_to_next_open_step p) (in_order-ordered p.steps) (knows-ordered p.steps)
      (known_ends p.steps) (acyclic_passes p.steps)

in_time : (r : Search) → r ≢ out_of_fuel → raised_by r ≢ raise recursion_error
unfolding raised_by
in_time (visited done) n = λ h. cc
in_time cycle n = λ h. cc
in_time missing n = λ h. cc
in_time out_of_fuel n = absurd (n refl)

-- The check of the dependencies ends, whatever the steps depend on: its search visits no step more
-- deeply than there are steps.
pub validate_dependency_graph-ends :
    (steps : List PlanStep) → validate_dependency_graph steps ≢ raise recursion_error
unfolding validate_dependency_graph whole
validate_dependency_graph-ends steps = in_time (whole steps) (whole-ends steps)
