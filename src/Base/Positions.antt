-- ===== src/Base/Positions.antt =====
-- Reading and writing a list at a position.
use Prim.Native.Nat.{ℕ, zero, suc}
use mathlib.Core.Path.{◌≡◌, refl, ap}
use mathlib.Core.Option.{none, some}
use mathlib.Core.List.{List, [], ◌∷◌}
use mathlib.Core.Logic.{◌≢◌}
use native.Mathlib.Omega.{arith}
use moduagent.Base.Lists.{length, get_elem?, set, drop}

module _ {ℓ} {A : Type ℓ} where
  pub drop-get_elem? :
      (xs : List A) (i : ℕ) (x : A) → get_elem? xs i ≡ some x → drop i xs ≡ x ∷ drop (suc i) xs
  drop-get_elem? [] i x h = cc
  drop-get_elem? (y ∷ ys) zero x h = ground arith
  drop-get_elem? (y ∷ ys) (suc i) x h = drop-get_elem? ys i x h

  pub drop-none : (xs : List A) (i : ℕ) → get_elem? xs i ≡ none → drop i xs ≡ []
  drop-none [] zero h = refl
  drop-none [] (suc i) h = refl
  drop-none (y ∷ ys) zero h = cc
  drop-none (y ∷ ys) (suc i) h = drop-none ys i h

  pub drop-set : (xs : List A) (i : ℕ) (a : A) → drop (suc i) (set xs i a) ≡ drop (suc i) xs
  drop-set [] i a = refl
  drop-set (y ∷ ys) zero a = refl
  drop-set (y ∷ ys) (suc i) a = drop-set ys i a

  pub get_elem?-set :
      (xs : List A) (i : ℕ) (x a : A) → get_elem? xs i ≡ some x → get_elem? (set xs i a) i ≡ some a
  get_elem?-set [] i x a h = cc
  get_elem?-set (y ∷ ys) zero x a h = refl
  get_elem?-set (y ∷ ys) (suc i) x a h = get_elem?-set ys i x a h

  pub get_elem?-set_ne :
      (xs : List A) (i j : ℕ) (a : A) → i ≢ j → get_elem? (set xs i a) j ≡ get_elem? xs j
  get_elem?-set_ne [] i j a n = refl
  get_elem?-set_ne (y ∷ ys) zero zero a n = absurd (n refl)
  get_elem?-set_ne (y ∷ ys) zero (suc j) a n = refl
  get_elem?-set_ne (y ∷ ys) (suc i) zero a n = refl
  get_elem?-set_ne (y ∷ ys) (suc i) (suc j) a n = get_elem?-set_ne ys i j a (λ e. n (ap suc e))

  pub length-set : (xs : List A) (i : ℕ) (a : A) → length (set xs i a) ≡ length xs
  length-set [] i a = refl
  length-set (y ∷ ys) zero a = refl
  length-set (y ∷ ys) (suc i) a = ap suc (length-set ys i a)
