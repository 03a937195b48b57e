-- ===== src/Prelude/Keys.antt =====
-- Keys of Go maps: a Boolean equality that decides the path type, taken as an instance.
use Prim.Native.Nat.{ℕ}
use mathlib.Core.Path.{◌≡◌, refl}
use mathlib.Core.Logic.{◌↔◌}
use mathlib.Core.Bool.{Bool, true, false, ◌&&◌}
use mathlib.Core.List.{List, [], ◌∷◌}
use native.Mathlib.Omega.{arith}
use gremlind.Prelude.Tests.{nat_eqb, nat_eqb_iff}

-- The Boolean test of a type of keys.
pub record Key {ℓ} (A : Type ℓ) : Type ℓ where
  pub same : A → A → Bool
  pub decides : (a b : A) → (same a b ≡ true) ↔ (a ≡ b)

module _ {ℓ} {A : Type ℓ} ⦃key : Key A⦄ where
  infix 50 ◌==◌
  abbrev pub ◌==◌ : A → A → Bool
  a == b = key.same a b

instance abbrev pub nat_eq : Key ℕ
nat_eq = record { decides = nat_eqb_iff; same = nat_eqb }

module _ {ℓ} {A : Type ℓ} ⦃key : Key A⦄ where
  pub ==_iff : (a b : A) → ((a == b) ≡ true) ↔ (a ≡ b)
  ==_iff a b = key.decides a b

  pub ==_refl : (a : A) → (a == a) ≡ true
  ==_refl a = (key.decides a a).1 refl

  abbrev pub list_eqb : List A → List A → Bool
  list_eqb [] [] = true
  list_eqb [] (y ∷ ys) = false
  list_eqb (x ∷ xs) [] = false
  list_eqb (x ∷ xs) (y ∷ ys) = key.same x y && list_eqb xs ys

  pub list_eqb_iff : (xs ys : List A) → (list_eqb xs ys ≡ true) ↔ (xs ≡ ys)
  list_eqb_iff [] [] = (λ _. refl, λ _. refl)
  list_eqb_iff [] (y ∷ ys) = (λ h. cc, λ h. cc)
  list_eqb_iff (x ∷ xs) [] = (λ h. cc, λ h. cc)
  list_eqb_iff (x ∷ xs) (y ∷ ys) = ground (arith, key.decides x y, list_eqb_iff xs ys)

instance abbrev pub list_eq {ℓ} : {A : Type ℓ} ⦃key : Key A⦄ → Key (List A)
list_eq = record { same = list_eqb; decides = list_eqb_iff }
