-- ===== src/Gre/Link/Views.antt =====
-- The links that the kernel has, seen as a list: one link by its name or index, and the others.
use gremlind.Prelude.{
  ℕ, ◌≡◌, ◌≢◌, refl, sym, ap, ◌∙◌, inl, inr, Bool, true, not, List, [], ◌∷◌, ◌++◌, ok, err, ◌==◌,
  nat_eq, list_eq, arith, if◌then◌else◌, All, Bool-cases,
}
use gremlind.Prelude.Bytes.{Bytes}
use gremlind.Gre.Link.{LinkInfo, LinkError, find_index}

module _ {A : Type 0} where
  unfoldable pub filter : (A → Bool) → List A → List A
  filter p [] = []
  filter p (x ∷ xs) = if p x then x ∷ filter p xs else filter p xs

  pub filter_all : (p : A → Bool) (xs : List A) → All (λ x. p x ≡ true) xs → filter p xs ≡ xs
  unfolding filter
  filter_all p [] h = refl
  filter_all p (x ∷ xs) h = ground (arith, h.0, ap (◌∷◌ x) (filter_all p xs h.1))

  pub filter-append :
      (p : A → Bool) (xs ys : List A) → filter p (xs ++ ys) ≡ filter p xs ++ filter p ys
  unfolding filter
  filter-append p [] ys = refl
  filter-append p (x ∷ xs) ys = elim (Bool-cases (p x)) [
    | inl kept ↦ rw kept (ap (◌∷◌ x) (filter-append p xs ys))
    | inr gone ↦ rw gone (filter-append p xs ys)
  ]

-- The links with another index, and those with another name.
abbrev pub without_index : ℕ → List LinkInfo → List LinkInfo
without_index i = filter (λ l. not (l.index == i))

abbrev pub others : Bytes → List LinkInfo → List LinkInfo
others name = filter (λ l. not (l.name == name))

-- No two links share an index or a name.
abbrev pub Unique : List LinkInfo → Type 0
Unique [] = Unit
Unique (l ∷ ls) = All (λ m. (m.index ≢ l.index) × (m.name ≢ l.name)) ls × Unique ls

All-map :
    {P Q : LinkInfo → Type 0} (f : (l : LinkInfo) → P l → Q l) (ls : List LinkInfo)
    → All P ls
    → All Q ls
All-map f [] h = tt
All-map f (l ∷ ls) h = (f l h.0, All-map f ls h.1)

pub other_index : (i j : ℕ) → j ≢ i → not (j == i) ≡ true
other_index i j h = ground (arith, nat_eq.decides j i)

pub other_name : (name n : Bytes) → n ≢ name → not (n == name) ≡ true
other_name name n h = ground (arith, (list_eq {A = ℕ}).decides n name)

find_index-member :
    (name : Bytes) (ls : List LinkInfo) (i j : ℕ) (n : Bytes)
    → All (λ m. (m.index ≢ j) × (m.name ≢ n)) ls
    → find_index name ls ≡ ok i
    → i ≢ j
unfolding find_index
find_index-member name [] i j n all h = cc
find_index-member name (l ∷ ls) i j n all h = elim (Bool-cases (l.name == name)) [
  | inl here ↦ let same : l.index ≡ i = ground (arith, h, here) in λ e. all.0.0 (same ∙ e)
  | inr there ↦ find_index-member name ls i j n all.1 (ground (arith, h, there))
]

-- The link that a name is found at is the only one with the index, and with the name.
pub find_index-without :
    (name : Bytes) (ls : List LinkInfo) (i : ℕ)
    → Unique ls
    → find_index name ls ≡ ok i
    → without_index i ls ≡ others name ls
unfolding find_index filter
find_index-without name [] i u h = refl
find_index-without name (l ∷ ls) i u h = elim (Bool-cases (l.name == name)) [
  | inl here ↦
      let same : l.index ≡ i = ground (arith, h, here) in
      let named : l.name ≡ name = ((list_eq {A = ℕ}).decides l.name name).0 here in
      let no_index =
        filter_all (λ l. not (l.index == i)) ls
          (All-map (λ m d. other_index i m.index (λ e. d.0 (e ∙ sym same))) ls u.0) in
      let no_name =
        filter_all (λ l. not (l.name == name)) ls
          (All-map (λ m d. other_name name m.name (λ e. d.1 (e ∙ sym named))) ls u.0) in
      ground (arith, here, same, nat_eq.decides l.index i, no_index, no_name)
  | inr there ↦
      let found : find_index name ls ≡ ok i = ground (arith, h, there) in
      let apart = find_index-member name ls i l.index l.name u.0 found in
      let rest = ap (◌∷◌ l) (find_index-without name ls i u.1 found) in
      ground (arith, there, nat_eq.decides l.index i, apart, rest)
]

pub find_index-missing :
    (name : Bytes) (ls : List LinkInfo) {e : LinkError}
    → find_index name ls ≡ err e
    → others name ls ≡ ls
unfolding find_index filter
find_index-missing name [] {e} h = refl
find_index-missing name (l ∷ ls) {e} h = elim (Bool-cases (l.name == name)) [
  | inl here ↦ ground (arith, h, here)
  | inr there ↦
      ground
        (arith, there, ap (◌∷◌ l) (find_index-missing name ls {e = e} (ground (arith, h, there))))
]

pub others-others :
    (name : Bytes) (ls : List LinkInfo) → others name (others name ls) ≡ others name ls
unfolding filter
others-others name [] = refl
others-others name (l ∷ ls) = elim (Bool-cases (l.name == name)) [
  | inl here ↦ ground (arith, here, others-others name ls)
  | inr there ↦ ground (arith, there, ap (◌∷◌ l) (others-others name ls))
]

-- A link that is added to unique ones brings a new name.
pub Unique-snoc :
    (ls : List LinkInfo) (l : LinkInfo) → Unique (ls ++ l ∷ []) → others l.name ls ≡ ls
unfolding filter
Unique-snoc [] l u = refl
Unique-snoc (m ∷ ls) l u =
    let apart : l.name ≢ m.name = last_apart ls u.0 in
    let kept = other_name l.name m.name (λ e. apart (sym e)) in
    rw kept (ap (◌∷◌ m) (Unique-snoc ls l u.1))
  where
    last_apart :
        (rest : List LinkInfo)
        → All (λ x. (x.index ≢ m.index) × (x.name ≢ m.name)) (rest ++ l ∷ [])
        → l.name ≢ m.name
    last_apart [] h = h.0.1
    last_apart (x ∷ rest) h = last_apart rest h.1

pub others-snoc :
    (ls : List LinkInfo) (l : LinkInfo) → others l.name (ls ++ l ∷ []) ≡ others l.name ls
unfolding filter
others-snoc [] l = ground (arith, (list_eq {A = ℕ}).decides l.name l.name)
others-snoc (m ∷ ls) l = elim (Bool-cases (m.name == l.name)) [
  | inl here ↦ ground (arith, here, others-snoc ls l)
  | inr there ↦ ground (arith, there, ap (◌∷◌ m) (others-snoc ls l))
]
