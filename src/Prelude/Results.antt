-- ===== src/Prelude/Results.antt =====
-- Go's (value, error) pairs: a value or an error, never both.
use mathlib.Core.Path.{◌≡◌, refl}
use mathlib.Core.Logic.{◌⊎◌, inl, inr}

pub data Result {ℓ κ} (E : Type ℓ) (A : Type κ) : Type (ℓ ⊔ κ) where
  ok : A → Result E A
  err : E → Result E A

module _ {ℓ κ μ} {E : Type ℓ} {A : Type κ} {B : Type μ} where
  infixl 5 ◌>>=◌
  -- `if err != nil { return err }` between two calls.
  abbrev pub ◌>>=◌ : Result E A → (A → Result E B) → Result E B
  err failure >>= next = err failure
  ok value >>= next = next value

  -- A chain succeeds where both of its calls do.
  pub >>=-eq-ok :
      (first : Result E A) (next : A → Result E B) {result : B}
      → (first >>= next) ≡ ok result
      → (a : A) × (first ≡ ok a) × (next a ≡ ok result)
  >>=-eq-ok (err failure) next chain = cc
  >>=-eq-ok (ok value) next chain = (value, refl, chain)

module _ {ℓ} {E : Type ℓ} where
  infixr 4 ◌>>◌
  abbrev pub ◌>>◌ : Result E (Unit {0}) → Result E (Unit {0}) → Result E (Unit {0})
  check >> others = check >>= λ _. others

module _ {ℓ κ} {E : Type ℓ} {A : Type κ} where
  pub Result-cases : (r : Result E A) → ((a : A) × (r ≡ ok a)) ⊎ ((e : E) × (r ≡ err e))
  Result-cases (err failure) = inr (failure, refl)
  Result-cases (ok value) = inl (value, refl)
