-- ===== src/Base/Lists.antt =====
-- Lists over the native numbers, and Python's `in` on a list of texts.
use Prim.Native.Nat.{ℕ, zero, suc, ◌+◌}
use mathlib.Core.Option.{Option, none, some}
use Prim.Native.String.{String}
use mathlib.Core.Path.{◌≡◌}
use mathlib.Core.Bool.{Bool, true, false, not, ◌&&◌, ◌||◌}
use mathlib.Core.List.{List, [], ◌∷◌, ◌++◌}
use native.Mathlib.Omega.{arith}
use text.Mathlib.Text.{◌==◌ as str_eq}

module _ {ℓ} {A : Type ℓ} where
  abbrev pub length : List A → ℕ
  length [] = 0
  length (x ∷ xs) = suc (length xs)

  pub length-append : (xs ys : List A) → length (xs ++ ys) ≡ length xs + length ys
  length-append [] ys = omega arith
  length-append (x ∷ xs) ys = omega (arith, length-append xs ys)

  -- `all(p(x) for x in xs)`
  abbrev pub all : (A → Bool) → List A → Bool
  all p [] = true
  all p (x ∷ xs) = p x && all p xs

-- `s in xs`
abbrev pub contains : String → List String → Bool
contains s [] = false
contains s (x ∷ xs) = (str_eq s x) || contains s xs

-- `len(set(xs)) == len(xs)`
abbrev pub is_unique : List String → Bool
is_unique [] = true
is_unique (x ∷ xs) = not (contains x xs) && is_unique xs

-- Positions count from 0.
module _ {ℓ} {A : Type ℓ} where
  -- `xs[i]`, none out of range.
  abbrev pub get_elem? : List A → ℕ → Option A
  get_elem? [] i = none
  get_elem? (x ∷ xs) zero = some x
  get_elem? (x ∷ xs) (suc i) = get_elem? xs i

  abbrev pub set : List A → ℕ → A → List A
  set [] i a = []
  set (x ∷ xs) zero a = a ∷ xs
  set (x ∷ xs) (suc i) a = x ∷ set xs i a

  -- `xs[i:]`
  abbrev pub drop : ℕ → List A → List A
  drop zero xs = xs
  drop (suc i) [] = []
  drop (suc i) (x ∷ xs) = drop i xs
