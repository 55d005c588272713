-- ===== src/Decision/Planning/Order.antt =====
-- moduagent/decision/planning.py: the checks of a plan's dependencies against the order of its steps.
use moduagent.Base.{
  ℕ, suc, ◌≤◌, ◌≡◌, refl, sym, ◌∙◌, String, Bool, true, false, not, ◌&&◌, Option, none, some, List,
  [], ◌∷◌, contains, is_unique, all, Dict, lookup, eq_iff, eq_refl, ltb, Bool-cases, Option-cases,
  inl, inr, arith, ap,
}
use moduagent.Decision.Planning.Steps.{PlanStep}
use moduagent.Decision.Planning.Plan.{ids, positions, is_before, is_in_order}

-- Every step depends on steps that stand before it, and on `seen`.
abbrev pub ordered_from : List String → List PlanStep → Bool
ordered_from seen [] = true
ordered_from seen (s ∷ ss) =
    all (λ d. contains d seen) s.dependencies && ordered_from (s.step_id ∷ seen) ss

-- None of these texts is in `seen`.
abbrev pub are_new : List String → List String → Bool
are_new seen xs = all (λ x. not (contains x seen)) xs

lookup-positions_le :
    (i j : ℕ) (d : String) (ss : List PlanStep) → lookup d (positions i ss) ≡ some j → i ≤ j
unfolding lookup
lookup-positions_le i j d [] h = cc
lookup-positions_le i j d (s ∷ ss) h = ground (arith, lookup-positions_le (suc i) j d ss)

is_below : Option ℕ → ℕ → Bool
is_below none i = false
is_below (some j) i = ltb j i

-- `at` gives the positions of the steps that are seen and of the steps that are left, from `i` on.
record Agrees (at : Dict ℕ) (seen : List String) (i : ℕ) (ss : List PlanStep) : Type 0 where
  below : (d : String) → contains d seen ≡ true → is_below (lookup d at) i ≡ true
  left : (d : String) → contains d seen ≡ false → lookup d at ≡ lookup d (positions i ss)

is_below-suc : (o : Option ℕ) (i : ℕ) → is_below o i ≡ true → is_below o (suc i) ≡ true
unfolding is_below
is_below-suc none i h = cc
is_below-suc (some j) i h = ground arith

Agrees-next :
    (at : Dict ℕ) (seen : List String) (i : ℕ) (s : PlanStep) (ss : List PlanStep)
    → contains s.step_id seen ≡ false
    → Agrees at seen i (s ∷ ss)
    → Agrees at (s.step_id ∷ seen) (suc i) ss
unfolding lookup is_below
Agrees-next at seen i s ss n a = record {
  below = λ d h. elim (Bool-cases (contains d seen)) [
    | inl p ↦ is_below-suc (lookup d at) i (a.below d p)
    | inr p ↦ rw (a.left d p) (ground (arith, eq_iff d s.step_id, eq_iff s.step_id d))
  ];
  left = λ d h. a.left d (ground arith) ∙ (ground (arith, eq_iff d s.step_id, eq_iff s.step_id d));
}

is_before-below : (o : Option ℕ) (i : ℕ) → is_before o (some i) ≡ is_below o i
unfolding is_below
is_before-below none i = refl
is_before-below (some j) i = refl

is_below-positions :
    (d : String) (i : ℕ) (ss : List PlanStep) → is_below (lookup d (positions i ss)) i ≡ false
unfolding is_below
is_below-positions d i ss = elim (Option-cases (lookup d (positions i ss))) [
  | inl p ↦ rw p refl
  | inr (j, p) ↦ rw p (ground (arith, lookup-positions_le i j d ss p))
]

is_before-seen :
    (at : Dict ℕ) (seen : List String) (i : ℕ) (s : PlanStep) (ss : List PlanStep) (d : String)
    → contains s.step_id seen ≡ false
    → Agrees at seen i (s ∷ ss)
    → is_before (lookup d at) (lookup s.step_id at) ≡ contains d seen
unfolding lookup
is_before-seen at seen i s ss d n a =
    let own : lookup s.step_id at ≡ some i =
      a.left s.step_id n ∙ ground (arith, eq_refl s.step_id) in
    rw own (
      is_before-below (lookup d at) i ∙ elim (Bool-cases (contains d seen)) [
        | inl p ↦ a.below d p ∙ sym p
        | inr p ↦ ap (λ o. is_below o i) (a.left d p) ∙ is_below-positions d i (s ∷ ss) ∙ sym p
      ])

all-eq : (p q : String → Bool) (xs : List String) → ((x : String) → p x ≡ q x) → all p xs ≡ all q xs
all-eq p q [] h = refl
all-eq p q (x ∷ xs) h = rw (h x, all-eq p q xs h) refl

pub are_new-cons :
    (x : String) (seen xs : List String)
    → contains x xs ≡ false
    → are_new seen xs ≡ true
    → are_new (x ∷ seen) xs ≡ true
are_new-cons x seen [] n h = refl
are_new-cons x seen (y ∷ ys) n h = ground (arith, are_new-cons x seen ys, eq_iff x y, eq_iff y x)

-- The comparison of positions is the order.
in_order-from :
    (at : Dict ℕ) (seen : List String) (i : ℕ) (ss : List PlanStep)
    → is_unique (ids ss) ≡ true
    → are_new seen (ids ss) ≡ true
    → Agrees at seen i ss
    → all (is_in_order at) ss ≡ ordered_from seen ss
in_order-from at seen i [] u n a = refl
in_order-from at seen i (s ∷ ss) u n a =
    let here : is_in_order at s ≡ all (λ d. contains d seen) s.dependencies =
      all-eq _ _ s.dependencies (λ d. is_before-seen at seen i s ss d (ground arith) a) in
    rw
      (
        here,
        in_order-from at (s.step_id ∷ seen) (suc i) ss (ground arith)
            (are_new-cons s.step_id seen (ids ss) (ground arith) (ground arith))
            (Agrees-next at seen i s ss (ground arith) a),
      )
      refl

pub are_new-nil : (xs : List String) → are_new [] xs ≡ true
are_new-nil [] = refl
are_new-nil (x ∷ xs) = are_new-nil xs

pub in_order-ordered :
    (steps : List PlanStep)
    → is_unique (ids steps) ≡ true
    → all (is_in_order (positions 0 steps)) steps ≡ ordered_from [] steps
in_order-ordered steps u =
    in_order-from (positions 0 steps) [] 0 steps u (are_new-nil (ids steps))
      (record { below = λ d h. cc; left = λ d h. refl })
