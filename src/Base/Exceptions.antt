-- ===== src/Base/Exceptions.antt =====
-- An exception as a value: `raise e` is Python's `raise`, `guard b e` is `if not b: raise e`.
use mathlib.Core.Path.{◌≡◌, refl}
use mathlib.Core.Logic.{◌⊎◌, inl, inr}
use mathlib.Core.Bool.{Bool, true, false}

pub data Result {ℓ κ} (E : Type ℓ) (A : Type κ) : Type (ℓ ⊔ κ) where
  raise : E → Result E A
  ok : A → Result E A

abbrev pub guard {ℓ} : {E : Type ℓ} → Bool → E → Result E (Unit {0})
guard passed e = elim passed [ false ↦ raise e | true ↦ ok tt ]

module _ {ℓ κ ι} {E : Type ℓ} {A : Type κ} {B : Type ι} where
  infixl 5 ◌>>=◌
  abbrev pub ◌>>=◌ : Result E A → (A → Result E B) → Result E B
  attempt >>= continue = elim attempt [ raise e ↦ raise e | ok value ↦ continue value ]

  -- The last step of a chain that succeeded, with the value that it had got.
  pub >>=-ok-inv :
      (attempt : Result E A) (continue : A → Result E B) {result : B}
      → (attempt >>= continue) ≡ ok result
      → (value : A) × (attempt ≡ ok value) × (continue value ≡ ok result)
  >>=-ok-inv (raise e) continue h = cc
  >>=-ok-inv (ok value) continue h = (value, refl, h)

module _ {ℓ κ} {E : Type ℓ} {A : Type κ} where
  infixl 5 ◌>>◌
  abbrev pub ◌>>◌ : Result E (Unit {0}) → Result E A → Result E A
  check >> rest = elim check [ raise e ↦ raise e | ok _ ↦ rest ]

  -- What follows a guard that passed.
  pub guard-ok :
      (passed : Bool) (e : E) (rest : Result E A) {a : A}
      → (guard passed e >> rest) ≡ ok a
      → (passed ≡ true) × (rest ≡ ok a)
  guard-ok false e rest h = cc
  guard-ok true e rest h = (refl, h)

  -- A guard that passes leaves what follows it.
  pub passes :
      (passed : Bool) (e : E) {rest result : Result E A}
      → passed ≡ true
      → rest ≡ result
      → (guard passed e >> rest) ≡ result
  passes false e p q = cc
  passes true e p q = q

  pub Result-cases : (r : Result E A) → ((a : A) × (r ≡ ok a)) ⊎ ((e : E) × (r ≡ raise e))
  Result-cases (raise e) = inr (e, refl)
  Result-cases (ok a) = inl (a, refl)
