-- ===== src/Gre/Netlink/Tunnel.antt =====
-- The attributes of a tunnel, as a list: what `createGRE` of internal/gre/netlink_linux.go puts into
-- IFLA_INFO_DATA.
use mathlib.Core.List.{append_assoc}
use gremlind.Prelude.{
  ℕ, ◌≡◌, refl, sym, ap, ◌∙◌, inl, inr, Bool, not, List, [], ◌∷◌, ◌++◌, ◌==◌, nat_eq, Bool-cases,
  if◌then◌else◌,
}
use gremlind.Prelude.Bytes.{Bytes}
use gremlind.Net.{is6}
use gremlind.Gre.Params.{Params}
use gremlind.Gre.Netlink.Words.{Endian}
use gremlind.Gre.Netlink.Message.{attr, be_u16, be_u32, native_u16, native_u32}
use gremlind.Gre.Netlink.Parse.{NlAttr}
use gremlind.Gre.Netlink.Reading.{encode, encode_all}
use gremlind.Gre.Netlink.Nesting.{attrs, attrs-encode_all}
use gremlind.Gre.Netlink.IflaGre
use gremlind.Gre.Netlink.Create.{
  as_slice, header_flags, hop_limit_of, put_keys, put_flags, put_ends, put_ignore_limit, put_fou,
  put_data,
}

abbrev pub an : ℕ → Bytes → NlAttr
an t payload = record { typ = t; payload = payload }

abbrev pub unless : Bool → List NlAttr → List NlAttr
unless test items = if test then [] else items

abbrev pub key_attrs : Params → List NlAttr
key_attrs p =
    unless (p.key == 0) (an IflaGre.ikey (be_u32 p.key) ∷ an IflaGre.okey (be_u32 p.key) ∷ [])

abbrev pub flag_attrs : Params → List NlAttr
flag_attrs p =
    unless (header_flags p == 0) (
      an IflaGre.iflags (be_u16 (header_flags p))
      ∷ an IflaGre.oflags (be_u16 (header_flags p))
      ∷ [])

abbrev pub end_attrs : Params → List NlAttr
end_attrs p =
    an IflaGre.local (as_slice p.local)
    ∷ an IflaGre.remote (as_slice p.remote)
    ∷ an IflaGre.ttl (hop_limit_of p ∷ [])
    ∷ []

abbrev pub limit_attrs : Endian → Params → List NlAttr
limit_attrs e p = unless (not (is6 p.local)) (an IflaGre.flags (native_u32 e 1) ∷ [])

abbrev pub fou_attrs : Endian → Params → List NlAttr
fou_attrs e p = unless (p.fou_dport == 0) (
    an IflaGre.encap_type (native_u16 e 1)
    ∷ an IflaGre.encap_flags (native_u16 e (if is6 p.local then 2 else 1))
    ∷ an IflaGre.encap_sport (be_u16 p.fou_sport)
    ∷ an IflaGre.encap_dport (be_u16 p.fou_dport)
    ∷ [])

unfoldable pub tunnel_attrs : Endian → Params → List NlAttr
tunnel_attrs e p =
    key_attrs p ++ (flag_attrs p ++ (end_attrs p ++ (limit_attrs e p ++ fou_attrs e p)))

pub encode_all-append :
    (xs ys : List NlAttr) → encode_all (xs ++ ys) ≡ encode_all xs ++ encode_all ys
unfolding encode_all
encode_all-append [] ys = refl
encode_all-append (a ∷ xs) ys =
    ap (λ t. encode a ++ t) (encode_all-append xs ys)
    ∙ sym (append_assoc (encode a) (encode_all xs) (encode_all ys))

module _ (m : Bytes) (p : Params) where
  keys-attrs : put_keys m p ≡ attrs m (key_attrs p)
  unfolding put_keys attrs
  keys-attrs = elim (Bool-cases (p.key == 0)) [
    | inl e ↦ rw (e, put_keys) refl
    | inr e ↦ rw (e, put_keys) refl
  ]

  flags-attrs : put_flags m p ≡ attrs m (flag_attrs p)
  unfolding put_flags attrs
  flags-attrs = elim (Bool-cases (header_flags p == 0)) [
    | inl e ↦ rw (e, put_flags) refl
    | inr e ↦ rw (e, put_flags) refl
  ]

  ends-attrs : put_ends m p ≡ attrs m (end_attrs p)
  unfolding put_ends attrs
  ends-attrs = refl

  limit-attrs : (e : Endian) → put_ignore_limit e m p ≡ attrs m (limit_attrs e p)
  unfolding put_ignore_limit attrs
  limit-attrs e = elim (Bool-cases (is6 p.local)) [
    | inl six ↦ rw (six, put_ignore_limit) refl
    | inr four ↦ rw (four, put_ignore_limit) refl
  ]

  fou-attrs : (e : Endian) → put_fou e m p ≡ attrs m (fou_attrs e p)
  unfolding put_fou attrs
  fou-attrs e = elim (Bool-cases (p.fou_dport == 0)) [
    | inl off ↦ rw (off, put_fou) refl
    | inr on ↦ rw (on, put_fou) refl
  ]

attrs-append : (xs ys : List NlAttr) (m : Bytes) → attrs (attrs m xs) ys ≡ attrs m (xs ++ ys)
unfolding attrs
attrs-append [] ys m = refl
attrs-append (a ∷ xs) ys m = attrs-append xs ys (attr m a.typ a.payload)

pub put_data-attrs :
    (e : Endian) (m : Bytes) (p : Params) → put_data e m p ≡ m ++ encode_all (tunnel_attrs e p)
unfolding put_data tunnel_attrs
put_data-attrs e m p =
    let keys = put_keys m p in
    let flags = put_flags keys p in
    let ends = put_ends flags p in
    let limit = put_ignore_limit e ends p in
    let front =
      limit-attrs ends p e
      ∙ ap (λ t. attrs t (limit_attrs e p))
          (ends-attrs flags p
            ∙ ap (λ t. attrs t (end_attrs p))
                (flags-attrs keys p ∙ ap (λ t. attrs t (flag_attrs p)) (keys-attrs m p))) in
    let last = limit_attrs e p ++ fou_attrs e p in
    fou-attrs limit p e
    ∙ ap (λ t. attrs t (fou_attrs e p)) front
    ∙ attrs-append (limit_attrs e p) (fou_attrs e p)
        (attrs (attrs (attrs m (key_attrs p)) (flag_attrs p)) (end_attrs p))
    ∙ attrs-append (end_attrs p) last (attrs (attrs m (key_attrs p)) (flag_attrs p))
    ∙ attrs-append (flag_attrs p) (end_attrs p ++ last) (attrs m (key_attrs p))
    ∙ attrs-append (key_attrs p) (flag_attrs p ++ (end_attrs p ++ last)) m
    ∙ attrs-encode_all (key_attrs p ++ (flag_attrs p ++ (end_attrs p ++ last))) m
