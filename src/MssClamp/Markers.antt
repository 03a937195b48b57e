-- ===== src/MssClamp/Markers.antt =====
-- The comments by which internal/mssclamp/mssclamp.go finds its rules again: those of one interface
-- and direction are told from those of any other.
use mathlib.Core.List.{append_assoc}
use gremlind.Prelude.{
  ℕ, suc, ◌≡◌, ◌≢◌, refl, sym, ap, ◌∙◌, true, [], ◌∷◌, ◌++◌, drop, All, arith, nat_eq, list_eq,
}
use gremlind.Prelude.Bytes.{Bytes}
use gremlind.Prelude.Texts.{ascii}
use gremlind.Gre.Names.{valid_name, name_chars, is_alphanumeric}
use gremlind.MssClamp.Rules.{marker_prefix, marker}

-- No byte is a colon.
abbrev pub NoColon : Bytes → Type 0
NoColon = All (λ c. c ≢ b':')

pub split_at_colon :
    (xs ys r s : Bytes)
    → NoColon xs
    → NoColon ys
    → xs ++ b':' ∷ r ≡ ys ++ b':' ∷ s
    → (xs ≡ ys) × (r ≡ s)
split_at_colon [] [] r s hx hy e = (refl, cc)
split_at_colon [] (y ∷ ys) r s hx hy e = absurd (hy.0 (cc))
split_at_colon (x ∷ xs) [] r s hx hy e = absurd (hx.0 (cc))
split_at_colon (x ∷ xs) (y ∷ ys) r s hx hy e =
    let tails : xs ++ b':' ∷ r ≡ ys ++ b':' ∷ s = cc in
    let (same, rest) = split_at_colon xs ys r s hx.1 hy.1 tails in (cc, rest)

name_chars-NoColon : (i : ℕ) (s : Bytes) → name_chars i s ≡ true → NoColon s
unfolding name_chars is_alphanumeric
name_chars-NoColon i [] h = tt
name_chars-NoColon i (c ∷ s) h =
    (ground (arith, h), name_chars-NoColon (suc i) s (ground (arith, h)))

valid_name-NoColon : (name : Bytes) → valid_name name ≡ true → NoColon name
unfolding valid_name
valid_name-NoColon name h = name_chars-NoColon 0 name (ground (arith, h))

-- The prefix that a removal looks for starts the comment of another rule only if that rule is for the
-- same interface and the same direction, where both interfaces have names that Linux takes and a
-- direction has no colon.
pub marker_prefix-own :
    (i j direction other proto rest : Bytes)
    → valid_name i ≡ true
    → valid_name j ≡ true
    → NoColon direction
    → NoColon other
    → marker_prefix i direction ++ rest ≡ marker j other proto
    → (i ≡ j) × (direction ≡ other)
unfolding marker marker_prefix
marker_prefix-own i j direction other proto rest vi vj nd nb e =
    let inner = ap (drop 9) e in
    let whole =
      sym (append_assoc i (ascii ":" ++ (direction ++ ascii ":")) rest)
      ∙ inner
      ∙ append_assoc j (ascii ":" ++ (other ++ ascii ":")) proto in
    let (same, behind) =
      split_at_colon i j ((direction ++ ascii ":") ++ rest) ((other ++ ascii ":") ++ proto)
        (valid_name-NoColon i vi) (valid_name-NoColon j vj) whole in
    let directions =
      sym (append_assoc direction (ascii ":") rest)
      ∙ behind
      ∙ append_assoc other (ascii ":") proto in
    (same, (split_at_colon direction other rest proto nd nb directions).0)
