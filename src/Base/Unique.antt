-- ===== src/Base/Unique.antt =====
-- Lists of texts without repetition: one whose entries stand in another is not longer.
use Prim.Native.Nat.{suc, ◌≤◌}
use Prim.Native.String.{String}
use mathlib.Core.Path.{◌≡◌, refl}
use mathlib.Core.Logic.{◌⊎◌, inl, inr}
use mathlib.Core.Bool.{Bool, true, false}
use mathlib.Core.List.{List, [], ◌∷◌, ◌++◌}
use native.Mathlib.Omega.{arith}
use text.Mathlib.Text.{◌==◌ as str_eq}
use text.Mathlib.TextEquality.{eq_iff}
use moduagent.Base.Tests.{if◌then◌else◌, Bool-cases}
use moduagent.Base.Lists.{length, all, contains, is_unique}

remove : String → List String → List String
remove x [] = []
remove x (y ∷ ys) = if str_eq x y then ys else y ∷ remove x ys

length-remove :
    (x : String) (ys : List String) → contains x ys ≡ true → suc (length (remove x ys)) ≡ length ys
unfolding remove
length-remove x [] h = cc
length-remove x (y ∷ ys) h = ground (arith, length-remove x ys)

contains-remove :
    (z x : String) (ys : List String)
    → str_eq z x ≡ false
    → contains z ys ≡ true
    → contains z (remove x ys) ≡ true
unfolding remove
contains-remove z x [] n h = h
contains-remove z x (y ∷ ys) n h =
    ground (arith, contains-remove z x ys, eq_iff x y, eq_iff z y, eq_iff z x)

all-remove :
    (x : String) (xs ys : List String)
    → contains x xs ≡ false
    → all (λ v. contains v ys) xs ≡ true
    → all (λ v. contains v (remove x ys)) xs ≡ true
all-remove x [] ys n h = refl
all-remove x (z ∷ zs) ys n h =
    ground (arith, all-remove x zs ys, contains-remove z x ys, eq_iff x z, eq_iff z x)

pub length-le_of_unique :
    (xs ys : List String)
    → is_unique xs ≡ true
    → all (λ v. contains v ys) xs ≡ true
    → length xs ≤ length ys
length-le_of_unique [] ys u h = omega arith
length-le_of_unique (x ∷ xs) ys u h =
    let ih =
      length-le_of_unique xs (remove x ys) (ground arith)
        (all-remove x xs ys (ground arith) (ground arith)) in
    omega (arith, length-remove x ys (ground arith), ih)

pub contains-append_left :
    (id : String) (xs ys : List String) → contains id xs ≡ true → contains id (xs ++ ys) ≡ true
contains-append_left id [] ys h = cc
contains-append_left id (x ∷ xs) ys h = ground (arith, contains-append_left id xs ys)

pub contains-append_right :
    (id : String) (xs ys : List String) → contains id ys ≡ true → contains id (xs ++ ys) ≡ true
contains-append_right id [] ys h = h
contains-append_right id (x ∷ xs) ys h = ground (arith, contains-append_right id xs ys)

-- What a test that holds of every entry says of one entry.
pub all-contains :
    (p : String → Bool) (x : String) (xs : List String)
    → all p xs ≡ true
    → contains x xs ≡ true
    → p x ≡ true
all-contains p x [] h m = cc
all-contains p x (y ∷ ys) h m = ground (arith, all-contains p x ys, eq_iff x y)

pub contains-cons :
    (x y : String) (ys : List String)
    → contains x (y ∷ ys) ≡ true
    → (x ≡ y) ⊎ (contains x ys ≡ true)
contains-cons x y ys h = elim (Bool-cases (str_eq x y)) [
  | inl e ↦ inl ((eq_iff x y).0 e)
  | inr e ↦ inr (ground arith)
]

pub all_mono :
    (p q : String → Bool) (xs : List String)
    → ((x : String) → p x ≡ true → q x ≡ true)
    → all p xs ≡ true
    → all q xs ≡ true
all_mono p q [] h a = refl
all_mono p q (x ∷ xs) h a = ground (arith, h x, all_mono p q xs h)
