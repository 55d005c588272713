-- ===== src/Decision/Planning/Evolution.antt =====
-- moduagent/decision/planning.py: what a transition of a plan may change.
use moduagent.Base.{
  ℕ, zero, suc, ◌+◌, ◌≡◌, refl, ◌∙◌, Bool, true, false, ◌&&◌, some, List, [], ◌∷◌, get_elem?, set,
  drop, get_elem?-set_ne, if◌then◌else◌, Bool-cases, inl, inr, arith,
}
use native.Mathlib.Decide.{ℕ_discrete}
use moduagent.Decision.Planning.Steps.{PlanStep}
use moduagent.Decision.Planning.Plan.{graph, is_closed, closed_count}

-- Each step keeps its id and its dependencies, and a closed step stays as it is.
pub record Follows (xs ys : List PlanStep) : Type 0 where
  pub same_graph : graph ys ≡ graph xs
  pub keeps_closed :
      (j : ℕ) (s : PlanStep)
      → get_elem? xs j ≡ some s
      → is_closed s.status ≡ true
      → get_elem? ys j ≡ some s

pub Follows-refl : (xs : List PlanStep) → Follows xs xs
Follows-refl xs = record { same_graph = refl; keeps_closed = λ j s h c. h }

pub Follows-trans : (xs ys zs : List PlanStep) → Follows xs ys → Follows ys zs → Follows xs zs
Follows-trans xs ys zs f g = record {
  same_graph = g.same_graph ∙ f.same_graph;
  keeps_closed = λ j s h c. g.keeps_closed j s (f.keeps_closed j s h c) c;
}

graph-set :
    (xs : List PlanStep) (i : ℕ) (s a : PlanStep)
    → get_elem? xs i ≡ some s
    → a.step_id ≡ s.step_id
    → a.dependencies ≡ s.dependencies
    → graph (set xs i a) ≡ graph xs
graph-set [] i s a h p q = refl
graph-set (x ∷ xs) zero s a h p q = ground arith
graph-set (x ∷ xs) (suc i) s a h p q = rw (graph-set xs i s a h p q) refl

-- A write over an open step.
pub set-Follows :
    (xs : List PlanStep) (i : ℕ) (s a : PlanStep)
    → get_elem? xs i ≡ some s
    → is_closed s.status ≡ false
    → a.step_id ≡ s.step_id
    → a.dependencies ≡ s.dependencies
    → Follows xs (set xs i a)
set-Follows xs i s a h o p q = record {
  same_graph = graph-set xs i s a h p q;
  keeps_closed =
      λ j t k c. elim (ℕ_discrete i j) [ yes e ↦ cc | no n ↦ get_elem?-set_ne xs i j a n ∙ k ];
}

-- How many steps are not closed.
abbrev pub open_count : List PlanStep → ℕ
open_count [] = 0
open_count (s ∷ ss) = let rest = open_count ss in if is_closed s.status then rest else suc rest

pub open_count-set_open :
    (xs : List PlanStep) (i : ℕ) (s a : PlanStep)
    → get_elem? xs i ≡ some s
    → is_closed s.status ≡ false
    → is_closed a.status ≡ false
    → open_count (set xs i a) ≡ open_count xs
open_count-set_open [] i s a h o c = refl
open_count-set_open (x ∷ xs) zero s a h o c = ground arith
open_count-set_open (x ∷ xs) (suc i) s a h o c = ground (arith, open_count-set_open xs i s a h o c)

pub open_count-set_closed :
    (xs : List PlanStep) (i : ℕ) (s a : PlanStep)
    → get_elem? xs i ≡ some s
    → is_closed s.status ≡ false
    → is_closed a.status ≡ true
    → suc (open_count (set xs i a)) ≡ open_count xs
open_count-set_closed [] i s a h o c = cc
open_count-set_closed (x ∷ xs) zero s a h o c = ground arith
open_count-set_closed (x ∷ xs) (suc i) s a h o c =
    ground (arith, open_count-set_closed xs i s a h o c)

-- The first `n` steps are there and closed.
abbrev pub closed_before : ℕ → List PlanStep → Bool
closed_before zero xs = true
closed_before (suc n) [] = false
closed_before (suc n) (s ∷ ss) = let rest = closed_before n ss in is_closed s.status && rest

pub closed_before-set :
    (n : ℕ) (xs : List PlanStep) (a : PlanStep) → closed_before n (set xs n a) ≡ closed_before n xs
closed_before-set zero xs a = refl
closed_before-set (suc n) [] a = refl
closed_before-set (suc n) (s ∷ ss) a = rw (closed_before-set n ss a) refl

zero_add : (k : ℕ) → 0 + k ≡ k
zero_add k = omega arith

suc_add : (n k : ℕ) → suc n + k ≡ suc (n + k)
suc_add n k = omega arith

closed_before-count : (xs : List PlanStep) → closed_before (closed_count xs) xs ≡ true
closed_before-count [] = refl
closed_before-count (s ∷ ss) = elim (Bool-cases (is_closed s.status)) [
  | inl p ↦ rw (p, closed_before-count ss, p) refl
  | inr p ↦ rw p refl
]

closed_count-drop : (xs : List PlanStep) → closed_count (drop (closed_count xs) xs) ≡ 0
closed_count-drop [] = refl
closed_count-drop (s ∷ ss) = elim (Bool-cases (is_closed s.status)) [
  | inl p ↦ rw p (closed_count-drop ss)
  | inr p ↦ rw (p, p) refl
]

pub closed_before-add :
    (n : ℕ) (xs : List PlanStep)
    → closed_before n xs ≡ true
    → closed_before (n + closed_count (drop n xs)) xs ≡ true
closed_before-add zero xs h = rw (zero_add (closed_count xs)) (closed_before-count xs)
closed_before-add (suc n) [] h = cc
closed_before-add (suc n) (s ∷ ss) h =
    rw (suc_add n (closed_count (drop n ss))) (ground (arith, closed_before-add n ss))

pub closed_count-add :
    (n : ℕ) (xs : List PlanStep)
    → closed_before n xs ≡ true
    → closed_count (drop (n + closed_count (drop n xs)) xs) ≡ 0
closed_count-add zero xs h = rw (zero_add (closed_count xs)) (closed_count-drop xs)
closed_count-add (suc n) [] h = cc
closed_count-add (suc n) (s ∷ ss) h =
    rw (suc_add n (closed_count (drop n ss))) (closed_count-add n ss (ground arith))

pub closed_before-set_next :
    (n : ℕ) (xs : List PlanStep) (s a : PlanStep)
    → get_elem? xs n ≡ some s
    → is_closed a.status ≡ true
    → closed_before n xs ≡ true
    → closed_before (suc n) (set xs n a) ≡ true
closed_before-set_next n [] s a h c b = cc
closed_before-set_next zero (x ∷ xs) s a h c b = rw c refl
closed_before-set_next (suc n) (x ∷ xs) s a h c b = ground (arith, closed_before-set_next n xs s a)

pub first_open :
    (s : PlanStep) (ss : List PlanStep) → closed_count (s ∷ ss) ≡ 0 → is_closed s.status ≡ false
first_open s ss h = ground arith
