-- ===== src/Gre/Netlink/Parse.antt =====
-- `parseAttrs` and `trimNul` of internal/gre/netlink_linux.go.
use gremlind.Prelude.{
  ℕ, zero, suc, ◌||◌, List, [], ◌∷◌, length, take, drop, ltb, ◌==◌, nat_eq, if◌then◌else◌,
}
use gremlind.Prelude.Bytes.{Bytes}
use gremlind.Gre.Netlink.Words.{Endian, native_value}
use gremlind.Gre.Netlink.Message.{align4, sizeof_rt_attr}

-- `nlattr`
pub record NlAttr : Type 0 where
  pub typ : ℕ
  pub payload : Bytes

-- What Go code with a slice expression returns, or that it panics.
pub data Panicking {ℓ} (A : Type ℓ) : Type ℓ where
  returns : A → Panicking A
  panics : Panicking A

abbrev pub prepend : NlAttr → Panicking (List NlAttr) → Panicking (List NlAttr)
prepend a (returns rest) = returns (a ∷ rest)
prepend a panics = panics

-- The loop, on fuel. `b[align4(l):]` panics where the padding of the last attribute is missing.
unfoldable pub parse_loop : Endian → ℕ → Bytes → Panicking (List NlAttr)
unfolding native_value align4
parse_loop e zero b = returns []
parse_loop e (suc fuel) b =
    let l = native_value e (take 2 b) in
    let typ = native_value e (take 2 (drop 2 b)) in
    let a : NlAttr = record { typ = typ; payload = drop sizeof_rt_attr (take l b) } in
    let rest = parse_loop e fuel (drop (align4 l) b) in
    if ltb (length b) sizeof_rt_attr || (ltb l sizeof_rt_attr || ltb (length b) l)
    then returns []
    else if ltb (length b) (align4 l)
    then panics
    else prepend a rest

-- `parseAttrs`: every round takes four bytes or more.
unfoldable pub parse_attrs : Endian → Bytes → Panicking (List NlAttr)
unfolding parse_loop
parse_attrs e b = parse_loop e (length b) b

-- `trimNul`
unfoldable pub trim_nul : Bytes → Bytes
trim_nul [] = []
trim_nul (c ∷ s) = let rest = trim_nul s in if c == 0 then [] else c ∷ rest

-- `nameAttr`
unfoldable pub name_attr : Bytes → Bytes
name_attr [] = 0 ∷ []
name_attr (c ∷ s) = c ∷ name_attr s
