-- ===== src/Gre/Netlink/Reading.antt =====
-- Attributes that `attr` of internal/gre/netlink_linux.go writes, read back by `parseAttrs`.
use mathlib.Core.List.{append_assoc}
use gremlind.Prelude.{
  ℕ, zero, suc, ◌+◌, ◌-◌, ◌^◌, ◌≤◌, ◌<◌, ◌≡◌, refl, sym, ap, ap₂, ◌∙◌, List, [], ◌∷◌, ◌++◌, length,
  length-append, take, drop, take-append, drop-append, All, arith, not-lt→ltb,
}
use gremlind.Prelude.Bytes.{Bytes}
use gremlind.Gre.Netlink.Words.{Endian, little, native_value, le_value}
use gremlind.Gre.Netlink.Message.{align4, zeros, attr_header, attr}
use gremlind.Gre.Netlink.Parse.{NlAttr, returns, prepend, parse_loop, parse_attrs}

pub length-zeros : (n : ℕ) → length (zeros n) ≡ n
unfolding zeros
length-zeros zero = refl
length-zeros (suc n) = ap (λ (m : ℕ). suc m) (length-zeros n)

-- One attribute, and several one after the other.
unfoldable pub encode : NlAttr → Bytes
unfolding attr
encode a = attr [] a.typ a.payload

unfoldable pub encode_all : List NlAttr → Bytes
unfolding encode
encode_all [] = []
encode_all (a ∷ items) = encode a ++ encode_all items

pub attr-encode : (m : Bytes) (a : NlAttr) → attr m a.typ a.payload ≡ m ++ encode a
unfolding attr encode
attr-encode m a = refl

-- The type and the length fit their 16 bits.
pub record Fits (a : NlAttr) : Type 0 where
  pub typ_fits : a.typ < 2 ^ 16
  pub length_fits : 4 + length a.payload < 2 ^ 16

parse_round :
    (e : Endian) (fuel : ℕ) (b : Bytes) (l typ : ℕ)
    → native_value e (take 2 b) ≡ l
    → native_value e (take 2 (drop 2 b)) ≡ typ
    → 4 ≤ l
    → l ≤ align4 l
    → align4 l ≤ length b
    → parse_loop e (suc fuel) b
      ≡ prepend
          (record { typ = typ; payload = drop 4 (take l b) })
          (parse_loop e fuel (drop (align4 l) b))
unfolding parse_loop
parse_round e fuel b l typ hl ht low up fits =
    let enough = not-lt→ltb (length b) 4 (omega arith) in
    let long = not-lt→ltb l 4 (omega arith) in
    let inside = not-lt→ltb (length b) l (omega arith) in
    let padded = not-lt→ltb (length b) (align4 l) (omega arith) in
    rw (hl, ht, parse_loop, enough, long, inside, padded) refl

pad_of : ℕ → ℕ
unfolding align4
pad_of n = align4 (4 + n) - (4 + n)

aligned : (n : ℕ) → align4 (4 + n) ≡ 4 + (n + pad_of n)
unfolding align4 pad_of
aligned n = omega arith

four : (n : ℕ) → 4 + n ≡ suc (suc (suc (suc n)))
four n = omega arith

module _ (a : NlAttr) (fits : Fits a) (rest : Bytes) where
  abbrev size : ℕ
  size = length a.payload

  abbrev tail : Bytes
  tail = a.payload ++ (zeros (pad_of size) ++ rest)

  encode-append : encode a ++ rest ≡ attr_header (4 + size) a.typ ++ tail
  unfolding encode attr pad_of attr_header
  encode-append =
      ap (λ t. attr_header (4 + size) a.typ ++ t)
        (append_assoc a.payload (zeros (pad_of size)) rest)

  head_length : native_value little (take 2 (attr_header (4 + size) a.typ ++ tail)) ≡ 4 + size
  unfolding native_value le_value attr_header
  head_length = omega (arith, fits.length_fits)

  head_typ : native_value little (take 2 (drop 2 (attr_header (4 + size) a.typ ++ tail))) ≡ a.typ
  unfolding native_value le_value attr_header
  head_typ = omega (arith, fits.typ_fits)

  body : drop 4 (take (4 + size) (attr_header (4 + size) a.typ ++ tail)) ≡ a.payload
  unfolding attr_header
  body =
      ap (λ m. drop 4 (take m (attr_header (4 + size) a.typ ++ tail))) (four size)
      ∙ take-append a.payload (zeros (pad_of size) ++ rest)

  tail_end : drop (size + pad_of size) tail ≡ rest
  unfolding pad_of
  tail_end =
      let both = a.payload ++ zeros (pad_of size) in
      let len : length both ≡ size + pad_of size =
        length-append a.payload (zeros (pad_of size))
        ∙ ap (λ (n : ℕ). size + n) (length-zeros (pad_of size)) in
      ap₂ drop (sym len) (sym (append_assoc a.payload (zeros (pad_of size)) rest))
      ∙ drop-append both rest

  behind : drop (align4 (4 + size)) (attr_header (4 + size) a.typ ++ tail) ≡ rest
  unfolding attr_header
  behind =
      ap (λ n. drop n (attr_header (4 + size) a.typ ++ tail))
        (aligned size ∙ four (size + pad_of size))
      ∙ tail_end

  whole : length (attr_header (4 + size) a.typ ++ tail) ≡ align4 (4 + size) + length rest
  unfolding attr_header pad_of
  whole = omega (
    arith,
    aligned size,
    length-append a.payload (zeros (pad_of size) ++ rest),
    length-append (zeros (pad_of size)) rest,
    length-zeros (pad_of size),
  )

  -- One round reads one attribute.
  pub parse_step :
      (fuel : ℕ)
      → parse_loop little (suc fuel) (encode a ++ rest) ≡ prepend a (parse_loop little fuel rest)
  parse_step fuel =
      let b = attr_header (4 + size) a.typ ++ tail in
      let up = aligned size in
      ap (parse_loop little (suc fuel)) encode-append
      ∙ parse_round little fuel b (4 + size) a.typ head_length head_typ (omega arith)
          (omega (arith, up)) (omega (arith, whole))
      ∙ ap₂ prepend (ap (λ q. record { typ = a.typ; payload = q }) body)
          (ap (parse_loop little fuel) behind)

parse_end : (e : Endian) (fuel : ℕ) → parse_loop e fuel [] ≡ returns []
unfolding parse_loop
parse_end e zero = refl
parse_end e (suc fuel) = refl

-- With a round for each attribute the loop reads them all.
pub parse_loop-encode_all :
    (items : List NlAttr) (fuel : ℕ)
    → All Fits items
    → length items ≤ fuel
    → parse_loop little fuel (encode_all items) ≡ returns items
unfolding encode_all
parse_loop-encode_all [] fuel fits enough = parse_end little fuel
parse_loop-encode_all (a ∷ items) zero fits enough = absurd (omega arith)
parse_loop-encode_all (a ∷ items) (suc fuel) fits enough =
    parse_step a fits.0 (encode_all items) fuel
    ∙ ap (prepend a) (parse_loop-encode_all items fuel fits.1 (omega arith))

encode_all-long : (items : List NlAttr) → length items ≤ length (encode_all items)
unfolding encode_all encode attr attr_header
encode_all-long [] = omega arith
encode_all-long (a ∷ items) =
    omega (arith, length-append (encode a) (encode_all items), encode_all-long items)

-- On a host whose words have the low byte first, `parseAttrs` reads back any attributes that `attr`
-- wrote one after the other, whose types and lengths fit 16 bits, and does not panic.
pub parse_attrs-encode_all :
    (items : List NlAttr) → All Fits items → parse_attrs little (encode_all items) ≡ returns items
unfolding parse_attrs
parse_attrs-encode_all items fits =
    parse_loop-encode_all items (length (encode_all items)) fits (encode_all-long items)
