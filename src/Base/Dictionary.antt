-- ===== src/Base/Dictionary.antt =====
-- A Python dict with text keys, in insertion order.
use Prim.Native.Nat.{ℕ, ◌+◌}
use Prim.Native.String.{String}
use mathlib.Core.Path.{◌≡◌, refl}
use mathlib.Core.Bool.{Bool, true, ◌&&◌}
use mathlib.Core.Option.{Option, none, some}
use mathlib.Core.List.{List, [], ◌∷◌}
use native.Mathlib.Omega.{arith}
use text.Mathlib.Text.{◌==◌ as str_eq}
use text.Mathlib.TextEquality.{eq_iff}
use moduagent.Base.Lists.{length, contains}
use moduagent.Base.Tests.{if◌then◌else◌, is_some}

abbrev pub Dict {ℓ} : Type ℓ → Type ℓ
Dict V = List (String × V)

module _ {ℓ} {V : Type ℓ} where
  -- `d.get(k)`
  unfoldable pub lookup : String → Dict V → Option V
  lookup k [] = none
  lookup k ((j, v) ∷ d) = if str_eq j k then some v else lookup k d

  -- `d[k] = v`
  unfoldable pub insert : String → V → Dict V → Dict V
  insert k v [] = (k, v) ∷ []
  insert k v ((j, w) ∷ d) = if str_eq j k then (j, v) ∷ d else (j, w) ∷ insert k v d

  -- `d.get(k, default)`
  abbrev pub get_or : V → Option V → V
  get_or v none = v
  get_or v (some w) = w

  pub lookup-insert :
      (k j : String) (v : V) (d : Dict V)
      → lookup j (insert k v d) ≡ (if str_eq k j then some v else lookup j d)
  unfolding lookup insert
  lookup-insert k j v [] = refl
  lookup-insert k j v ((i, w) ∷ d) =
      ground (arith, eq_iff k j, eq_iff i k, eq_iff i j, lookup-insert k j v d)

  -- The sum of a weight over the values.
  abbrev pub sum_by : (V → ℕ) → Dict V → ℕ
  sum_by f [] = 0
  sum_by f ((k, v) ∷ d) = f v + sum_by f d

  abbrev pub weight : (V → ℕ) → Option V → ℕ
  weight f none = 0
  weight f (some v) = f v

  -- A write takes the old value's weight away and adds the new one's.
  pub sum_by-insert :
      (f : V → ℕ) (k : String) (v : V) (d : Dict V)
      → sum_by f (insert k v d) + weight f (lookup k d) ≡ sum_by f d + f v
  unfolding lookup insert
  sum_by-insert f k v [] = omega arith
  sum_by-insert f k v ((j, w) ∷ d) = ground (arith, sum_by-insert f k v d)

  -- A test that holds of every entry.
  abbrev pub all_entries : (String → V → Bool) → Dict V → Bool
  all_entries p [] = true
  all_entries p ((k, v) ∷ d) = p k v && all_entries p d

  pub all_entries-insert :
      (p : String → V → Bool) (k : String) (v : V) (d : Dict V)
      → all_entries p d ≡ true
      → p k v ≡ true
      → all_entries p (insert k v d) ≡ true
  unfolding insert
  all_entries-insert p k v [] h e = ground arith
  all_entries-insert p k v ((j, w) ∷ d) h e = ground (arith, eq_iff j k, all_entries-insert p k v d)

  pub all_entries-lookup :
      (p : String → V → Bool) (k : String) (v : V) (d : Dict V)
      → all_entries p d ≡ true
      → lookup k d ≡ some v
      → p k v ≡ true
  unfolding lookup
  all_entries-lookup p k v [] h e = ground arith
  all_entries-lookup p k v ((j, w) ∷ d) h e = ground (arith, eq_iff j k, all_entries-lookup p k v d)

  abbrev pub absent : Option V → ℕ
  absent none = 1
  absent (some v) = 0

  -- A write of a new key adds one entry, and of an old key none.
  pub length-insert :
      (k : String) (v : V) (d : Dict V) → length (insert k v d) ≡ length d + absent (lookup k d)
  unfolding lookup insert
  length-insert k v [] = omega arith
  length-insert k v ((j, w) ∷ d) = ground (arith, length-insert k v d)

  -- `d.keys()`
  abbrev pub keys : Dict V → List String
  keys [] = []
  keys ((k, v) ∷ d) = k ∷ keys d

  pub lookup-keys :
      (k : String) (d : Dict V) → is_some (lookup k d) ≡ true → contains k (keys d) ≡ true
  unfolding lookup
  lookup-keys k [] h = cc
  lookup-keys k ((j, v) ∷ d) h = ground (arith, lookup-keys k d, eq_iff k j, eq_iff j k)
