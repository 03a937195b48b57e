-- ===== src/Gre/Netlink/Nesting.antt =====
-- Containers that `beginNested` and `endNested` of internal/gre/netlink_linux.go write.
use mathlib.Core.List.{append-nil, append_assoc}
use gremlind.Prelude.{
  ℕ, ◌+◌, ◌-◌, ◌/◌, ◌%◌, ◌^◌, ◌<◌, ◌≡◌, refl, sym, ap, ap₂, ◌∙◌, List, [], ◌∷◌, ◌++◌, length,
  length-append, take, drop, take-append, drop-append, arith,
}
use gremlind.Prelude.Bytes.{Bytes}
use gremlind.Gre.Netlink.Words.{little, native_bytes, le_bytes}
use gremlind.Gre.Netlink.Message.{align4, zeros, attr_header, attr, native_u16, put_at, end_nested}
use gremlind.Gre.Netlink.Parse.{NlAttr}
use gremlind.Gre.Netlink.Reading.{encode, encode_all, length-zeros}

-- Several calls of `attr` in a row.
unfoldable pub attrs : Bytes → List NlAttr → Bytes
unfolding attr
attrs m [] = m
attrs m (a ∷ items) = attrs (attr m a.typ a.payload) items

pub attrs-encode_all : (items : List NlAttr) (m : Bytes) → attrs m items ≡ m ++ encode_all items
unfolding attrs encode_all encode attr
attrs-encode_all [] m = sym (append-nil m)
attrs-encode_all (a ∷ items) m =
    attrs-encode_all items (attr m a.typ a.payload) ∙ append_assoc m (encode a) (encode_all items)

-- What attributes take is a multiple of four bytes.
pub encode_aligned : (a : NlAttr) → length (encode a) ≡ align4 (4 + length a.payload)
unfolding encode attr attr_header align4
encode_aligned a =
    let size = length a.payload in
    omega (
      arith,
      length-append a.payload (zeros (align4 (4 + size) - (4 + size))),
      length-zeros (align4 (4 + size) - (4 + size)),
    )

pub encode_all-aligned : (items : List NlAttr) → length (encode_all items) % 4 ≡ 0
unfolding encode_all align4
encode_all-aligned [] = refl
encode_all-aligned (a ∷ items) =
    omega (
      arith,
      length-append (encode a) (encode_all items),
      encode_aligned a,
      encode_all-aligned items,
    )

module _ (m : Bytes) (typ : ℕ) (content : Bytes) where
  abbrev pub opened : Bytes
  opened = (m ++ attr_header 0 typ) ++ content

  length-opened : length opened ≡ length m + (4 + length content)
  unfolding attr_header
  length-opened =
      omega
        (arith, length-append (m ++ attr_header 0 typ) content, length-append m (attr_header 0 typ))

  take-opened : take (length m) opened ≡ m
  unfolding attr_header
  take-opened =
      ap (take (length m)) (append_assoc m (attr_header 0 typ) content)
      ∙ take-append m (attr_header 0 typ ++ content)

  abbrev typ_bytes : Bytes
  typ_bytes = typ % 256 ∷ typ / 256 % 256 ∷ []

  drop-opened : drop (length m + 2) opened ≡ typ_bytes ++ content
  unfolding attr_header
  drop-opened =
      let front = m ++ 0 ∷ 0 ∷ [] in
      let len : length front ≡ length m + 2 = length-append m (0 ∷ 0 ∷ []) in
      let split : opened ≡ front ++ (typ_bytes ++ content) =
        append_assoc m (attr_header 0 typ) content
        ∙ sym (append_assoc m (0 ∷ 0 ∷ []) (typ_bytes ++ content)) in
      ap₂ drop (sym len) split ∙ drop-append front (typ_bytes ++ content)

  no_pad : length content % 4 ≡ 0 → align4 (4 + length content) - (4 + length content) ≡ 0
  unfolding align4
  no_pad aligned = omega (arith, aligned)

  -- A container that is closed is the attribute of its content.
  pub end_nested-attr :
      length content % 4 ≡ 0
      → 4 + length content < 2 ^ 16
      → end_nested little opened (length m) ≡ attr m typ content
  unfolding end_nested put_at native_u16 native_bytes le_bytes attr attr_header zeros
  end_nested-attr aligned fits =
      let size : (length opened - length m) % 2 ^ 16 ≡ 4 + length content =
        omega (arith, length-opened, fits) in
      let word = λ (l : ℕ). le_bytes 2 l in
      let pad : align4 (4 + length content) - (4 + length content) ≡ 0 = no_pad aligned in
      ap₂ (λ before after. before ++ (word ((length opened - length m) % 2 ^ 16) ++ after))
        take-opened drop-opened
      ∙ ap (λ l. m ++ (word l ++ (typ_bytes ++ content))) size
      ∙ ap (λ c. m ++ (attr_header (4 + length content) typ ++ c)) (sym (append-nil content))
      ∙ ap (λ n. m ++ (attr_header (4 + length content) typ ++ (content ++ zeros n))) (sym pad)
