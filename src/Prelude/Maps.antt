-- ===== src/Prelude/Maps.antt =====
-- Go maps as association lists without order: `m[k]`, `m[k] = v` and `delete(m, k)`.
use Prim.Native.Nat.{suc}
use mathlib.Core.Path.{◌≡◌, refl}
use mathlib.Core.Logic.{◌≢◌, ◌⊎◌, inl, inr}
use mathlib.Core.Bool.{Bool, true, false}
use mathlib.Core.Option.{Option, none, some}
use mathlib.Core.List.{List, [], ◌∷◌}
use native.Mathlib.Omega.{arith}
use gremlind.Prelude.Tests.{if◌then◌else◌, Bool-cases}
use gremlind.Prelude.Lists.{length}
use gremlind.Prelude.Keys.{Key, ◌==◌}

abbrev pub Map {ℓ κ} : Type ℓ → Type κ → Type (ℓ ⊔ κ)
Map K V = List (K × V)

module _ {ℓ κ} {K : Type ℓ} {V : Type κ} ⦃key : Key K⦄ where
  -- `v, ok := m[k]`
  unfoldable pub lookup : K → Map K V → Option V
  lookup k [] = none
  lookup k ((first, value) ∷ rest) = if first == k then some value else lookup k rest

  -- `m[k] = v`: an entry that is there is replaced in its place.
  unfoldable pub insert : K → V → Map K V → Map K V
  insert k v [] = (k, v) ∷ []
  insert k v ((first, value) ∷ rest) =
      let tail = insert k v rest in if first == k then (k, v) ∷ rest else (first, value) ∷ tail

  -- `delete(m, k)`
  unfoldable pub delete : K → Map K V → Map K V
  delete k [] = []
  delete k ((first, value) ∷ m) =
      let rest = delete k m in if first == k then rest else (first, value) ∷ rest

  pub lookup-insert :
      (k other : K) (v : V) (m : Map K V)
      → lookup other (insert k v m) ≡ (if k == other then some v else lookup other m)
  unfolding insert lookup
  lookup-insert k other v [] = refl
  lookup-insert k other v ((first, value) ∷ rest) =
      let below = lookup-insert k other v rest in
      ground (arith, below, key.decides first other, key.decides first k, key.decides k other)

  pub lookup-delete :
      (k j : K) (m : Map K V) → lookup j (delete k m) ≡ (if k == j then none else lookup j m)
  unfolding lookup delete
  lookup-delete k j [] = ground arith
  lookup-delete k j ((i, w) ∷ m) =
      ground (arith, key.decides k j, key.decides i k, key.decides i j, lookup-delete k j m)

  pub delete-here : (k : K) (m : Map K V) → lookup k (delete k m) ≡ none
  delete-here k m = ground (arith, lookup-delete k k m, key.decides k k)

  pub delete-kept : (k j : K) (m : Map K V) → k ≢ j → lookup j (delete k m) ≡ lookup j m
  delete-kept k j m n = ground (arith, lookup-delete k j m, key.decides k j)

  pub delete-survives :
      (k j : K) (v : V) (m : Map K V)
      → lookup j (delete k m) ≡ some v
      → (k ≢ j) × (lookup j m ≡ some v)
  delete-survives k j v m h = ground (arith, lookup-delete k j m, key.decides k j)

  pub cons-cases :
      (k j : K) (v w : V) (m : Map K V)
      → lookup j ((k, v) ∷ m) ≡ some w
      → ((k ≡ j) × (v ≡ w)) ⊎ (lookup j m ≡ some w)
  unfolding lookup
  cons-cases k j v w m h = elim (Bool-cases (k == j)) [
    | inl same ↦ inl ((key.decides k j).0 same, ground (arith, h, same))
    | inr other ↦ inr (ground (arith, h, other))
  ]

  pub insert-none :
      (k j : K) (v : V) (m : Map K V) → lookup j (insert k v m) ≡ none → lookup j m ≡ none
  insert-none k j v m h = ground (arith, lookup-insert k j v m, h)

  pub insert-here : (k : K) (v : V) (m : Map K V) → lookup k (insert k v m) ≡ some v
  insert-here k v m = ground (arith, lookup-insert k k v m, key.decides k k)

  pub insert-kept : (k j : K) (v : V) (m : Map K V) → k ≢ j → lookup j (insert k v m) ≡ lookup j m
  insert-kept k j v m n = ground (arith, lookup-insert k j v m, key.decides k j)

  pub insert-cases :
      (k j : K) (v w : V) (m : Map K V)
      → lookup j (insert k v m) ≡ some w
      → ((k ≡ j) × (v ≡ w)) ⊎ ((k ≢ j) × (lookup j m ≡ some w))
  insert-cases k j v w m h = elim (Bool-cases (k == j)) [
    | inl same ↦ inl ((key.decides k j).0 same, ground (arith, lookup-insert k j v m))
    | inr other ↦ inr (ground (arith, key.decides k j), ground (arith, lookup-insert k j v m))
  ]

  pub lookup-nil : (k : K) → lookup k [] ≡ none
  unfolding lookup
  lookup-nil k = refl

-- A `map[K]bool` read without `ok`: a missing key reads as false.
abbrev pub get_or_false : Option Bool → Bool
get_or_false none = false
get_or_false (some b) = b

module _ {ℓ} {K : Type ℓ} ⦃key : Key K⦄ where
  unfoldable pub has : K → Map K Bool → Bool
  has k m = get_or_false (lookup k m)

  pub has-insert :
      (k j : K) (b : Bool) (m : Map K Bool) → has j (insert k b m) ≡ (if k == j then b else has j m)
  unfolding has
  has-insert k j b m = ground (arith, lookup-insert k j b m)

  pub has-delete :
      (k j : K) (m : Map K Bool) → has j (delete k m) ≡ (if k == j then false else has j m)
  unfolding has
  has-delete k j m = ground (arith, lookup-delete k j m)

  pub has-nil : (k : K) → has k [] ≡ false
  unfolding has lookup
  has-nil k = refl

abbrev pub is_some {ℓ} : {V : Type ℓ} → Option V → Bool
is_some none = false
is_some (some v) = true

-- Every key has one entry, so `length` is Go's `len`.
module _ {ℓ κ} {K : Type ℓ} {V : Type κ} ⦃key : Key K⦄ where
  abbrev pub Distinct : Map K V → Type κ
  Distinct [] = Unit {κ}
  Distinct ((k, v) ∷ m) = (lookup k m ≡ none) × Distinct m

  pub insert-Distinct : (k : K) (v : V) (m : Map K V) → Distinct m → Distinct (insert k v m)
  unfolding insert lookup
  insert-Distinct k v [] d = (refl, tt)
  insert-Distinct k v ((j, w) ∷ m) d =
      ground
        (arith, insert-Distinct k v m d.1, lookup-insert k j v m, key.decides j k, key.decides k j)

  pub delete-Distinct : (k : K) (m : Map K V) → Distinct m → Distinct (delete k m)
  unfolding delete
  delete-Distinct k [] d = tt
  delete-Distinct k ((j, w) ∷ m) d =
      ground (arith, delete-Distinct k m d.1, lookup-delete k j m, key.decides j k, key.decides k j)

  pub length-insert :
      (k : K) (v : V) (m : Map K V)
      → length (insert k v m) ≡ (if is_some (lookup k m) then length m else suc (length m))
  unfolding insert lookup
  length-insert k v [] = refl
  length-insert k v ((j, w) ∷ m) = ground (arith, length-insert k v m)

  delete_absent : (k : K) (m : Map K V) → lookup k m ≡ none → delete k m ≡ m
  unfolding delete lookup
  delete_absent k [] h = refl
  delete_absent k ((j, w) ∷ m) h = ground (arith, delete_absent k m)

  pub length-delete :
      (k : K) (m : Map K V)
      → Distinct m
      → length m ≡ (if is_some (lookup k m) then suc (length (delete k m)) else length (delete k m))
  unfolding delete lookup
  length-delete k [] d = refl
  length-delete k ((j, w) ∷ m) d =
      ground (arith, length-delete k m d.1, delete_absent k m, key.decides j k)
