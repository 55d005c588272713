-- ===== src/Decision/Planning/Search.antt =====
-- moduagent/decision/planning.py: how the search of `_validate_dependency_graph` ends.
use moduagent.Base.{
  ℕ, zero, suc, ◌+◌, ◌<◌, ◌≡◌, ◌≢◌, refl, String, true, false, none, some, is_some, List, [], ◌∷◌,
  length, contains, is_unique, all, keys, lookup-keys, length-le_of_unique, contains-cons, Dict,
  lookup, eq_refl, Bool-cases, Option-cases, inl, inr, arith,
}
use moduagent.Decision.Planning.Graph.{
  Search, visited, cycle, missing, out_of_fuel, ◌then_visit◌, finish, for_each, visit,
}

-- An end of the search that is no list of visited steps.
pub data IsFailure : Search → Type 0 where
  is_cycle : IsFailure cycle
  is_missing : IsFailure missing
  is_out_of_fuel : IsFailure out_of_fuel

visited-ne : (x : Search) → IsFailure x → (done : List String) → visited done ≢ x
visited-ne _ is_cycle done = λ e. cc
visited-ne _ is_missing done = λ e. cc
visited-ne _ is_out_of_fuel done = λ e. cc

then_visit-ne :
    (x r : Search) (next : List String → Search)
    → r ≢ x
    → ((now : List String) → next now ≢ x)
    → (r then_visit next) ≢ x
then_visit-ne x (visited now) next n h = h now
then_visit-ne x cycle next n h = n
then_visit-ne x missing next n h = n
then_visit-ne x out_of_fuel next n h = n

pub for_each-ne :
    (x : Search) (go : List String → String → Search) (ds done : List String)
    → IsFailure x
    → ((now : List String) (d : String) → contains d ds ≡ true → go now d ≢ x)
    → for_each go done ds ≢ x
unfolding for_each
for_each-ne x go [] done f h = visited-ne x f done
for_each-ne x go (d ∷ ds) done f h =
    then_visit-ne x (go done d) (λ now. for_each go now ds) (h done d (ground (arith, eq_refl d)))
      (λ now. for_each-ne x go ds now f (λ l e m. h l e (ground arith)))

finish-ne : (x : Search) (id : String) (r : Search) → IsFailure x → r ≢ x → finish id r ≢ x
finish-ne x id (visited done) f n = visited-ne x f (id ∷ done)
finish-ne x id cycle f n = n
finish-ne x id missing f n = n
finish-ne x id out_of_fuel f n = n

pub visited_or_failed :
    (r : Search)
    → r ≢ cycle
    → r ≢ missing
    → r ≢ out_of_fuel
    → (done : List String) × (r ≡ visited done)
visited_or_failed (visited done) c m o = (done, refl)
visited_or_failed cycle c m o = absurd (c refl)
visited_or_failed missing c m o = absurd (m refl)
visited_or_failed out_of_fuel c m o = absurd (o refl)

module _ (graph : Dict (List String)) where
  -- One visit that gets as far as a step's dependencies.
  visit-ne :
      (x : Search) (fuel : ℕ) (visiting done : List String) (id : String)
      → IsFailure x
      → (contains id visiting ≡ true → cycle ≢ x)
      → (lookup id graph ≡ none → missing ≢ x)
      → ((ds : List String)
          → lookup id graph ≡ some ds
          → contains id visiting ≡ false
          → (now : List String) (d : String) → contains d ds ≡ true
          → visit graph fuel (id ∷ visiting) now d ≢ x)
      → visit graph (suc fuel) visiting done id ≢ x
  unfolding visit
  visit-ne x fuel visiting done id f c m h = elim (Bool-cases (contains id visiting)) [
    | inl p ↦ rw p (c p)
    | inr p ↦ elim (Bool-cases (contains id done)) [
      | inl q ↦ rw (p, q) (visited-ne x f done)
      | inr q ↦ elim (Option-cases (lookup id graph)) [
        | inl r ↦ rw (p, q, r) (m r)
        | inr (ds, r) ↦
            rw (p, q, r)
              (finish-ne x id _ f (
                for_each-ne x (λ now d. visit graph fuel (id ∷ visiting) now d) ds done f
                  (h ds r p)))
      ]
    ]
  ]

  -- The search ends: it is never short of fuel where every step that is being visited is a step of
  -- the graph and none is twice.
  pub visit-ends :
      (fuel : ℕ) (visiting done : List String) (id : String)
      → is_unique visiting ≡ true
      → all (λ v. contains v (keys graph)) visiting ≡ true
      → length (keys graph) < fuel + length visiting
      → visit graph fuel visiting done id ≢ out_of_fuel
  visit-ends zero visiting done id u k l =
      absurd (omega (arith, length-le_of_unique visiting (keys graph) u k))
  visit-ends (suc fuel) visiting done id u k l =
      visit-ne out_of_fuel fuel visiting done id is_out_of_fuel (λ p e. cc) (λ p e. cc)
        (λ ds r p now d m.
          visit-ends fuel (id ∷ visiting) now d (ground arith)
            (ground (arith, lookup-keys id graph)) (omega arith))

  unfoldable pub IsClosed : Type 0
  IsClosed =
      (id d : String) (ds : List String)
      → lookup id graph ≡ some ds
      → contains d ds ≡ true
      → is_some (lookup d graph) ≡ true

  -- The search finds every step where every dependency is a step.
  pub visit-finds :
      (fuel : ℕ) (visiting done : List String) (id : String)
      → IsClosed
      → is_some (lookup id graph) ≡ true
      → visit graph fuel visiting done id ≢ missing
  unfolding IsClosed visit
  visit-finds zero visiting done id c k = λ e. cc
  visit-finds (suc fuel) visiting done id c k =
      visit-ne missing fuel visiting done id is_missing (λ p e. cc) (λ p e. cc)
        (λ ds r p now d m. visit-finds fuel (id ∷ visiting) now d c (c id d ds r m))

  -- The search finds no cycle where a ranking puts each dependency below its step.
  pub visit-acyclic :
      (rank : String → ℕ)
      → ((id d : String) (ds : List String)
          → lookup id graph ≡ some ds
          → contains d ds ≡ true
          → rank d < rank id)
      → (fuel : ℕ) (visiting done : List String) (id : String)
      → ((v : String) → contains v visiting ≡ true → rank id < rank v)
      → visit graph fuel visiting done id ≢ cycle
  unfolding visit
  visit-acyclic rank below zero visiting done id h = λ e. cc
  visit-acyclic rank below (suc fuel) visiting done id h =
      visit-ne cycle fuel visiting done id is_cycle (λ p. absurd (omega (arith, h id p)))
        (λ p e. cc)
        (λ ds r p now d m. visit-acyclic rank below fuel (id ∷ visiting) now d (λ v q.
          elim (contains-cons v id visiting q) [
            | inl e ↦ rw e (below id d ds r m)
            | inr e ↦ omega (arith, h v e, below id d ds r m)
          ]))
