-- ===== src/Gre/Netlink/Created.antt =====
-- The message of `createGRE` in internal/gre/netlink_linux.go, as a kernel whose words have the low
-- byte first reads it.
use mathlib.Core.List.{append-nil, append_assoc}
use gremlind.Prelude.{
  ℕ, ◌+◌, ◌^◌, ◌≤◌, ◌<◌, ◌≡◌, refl, sym, ap, ◌∙◌, List, [], ◌∷◌, ◌++◌, length, length-append, take,
  drop, All, arith,
}
use gremlind.Prelude.Bytes.{Bytes}
use gremlind.Gre.Params.{Params}
use gremlind.Gre.Link.{kind_of}
use gremlind.Gre.Netlink.Words.{
  little, native_bytes, length-native_bytes, native_value, le_bytes, le_value,
}
use gremlind.Gre.Netlink.Message.{
  align4, zeros, attr, attr_header, native_u16, native_u32, new_nlmsg, put, put_at, begin_nested,
  end_nested, finalize,
}
use gremlind.Gre.Netlink.Parse.{NlAttr, returns, parse_attrs, name_attr}
use gremlind.Gre.Netlink.Reading.{encode, encode_all, Fits, parse_attrs-encode_all}
use gremlind.Gre.Netlink.Nesting.{
  attrs, attrs-encode_all, encode_all-aligned, encode_aligned, end_nested-attr,
}
use gremlind.Gre.Netlink.Ifla
use gremlind.Gre.Netlink.Create.{word_32, put_link_info, create_gre}
use gremlind.Gre.Netlink.Tunnel.{an, tunnel_attrs, put_data-attrs}
use gremlind.Gre.Netlink.Sizes.{Small-Fits, tunnel_attrs-Small, length-data}

length-name_attr : (name : Bytes) → length (name_attr name) ≡ length name + 1
unfolding name_attr
length-name_attr [] = refl
length-name_attr (c ∷ s) = omega (arith, length-name_attr s)

length-kind_of : (p : Params) → length (kind_of p) ≤ 6
unfolding kind_of
length-kind_of p = ground arith

-- The two attributes of IFLA_LINKINFO.
abbrev pub info_attrs : Params → List NlAttr
info_attrs p =
    an Ifla.info_kind (name_attr (kind_of p))
    ∷ an Ifla.info_data (encode_all (tunnel_attrs little p))
    ∷ []

info_attrs-Fits : (p : Params) → All Fits (info_attrs p)
info_attrs-Fits p = (
  record {
    typ_fits = omega arith;
    length_fits = omega (arith, length-name_attr (kind_of p), length-kind_of p);
  },
  (record { typ_fits = omega arith; length_fits = omega (arith, length-data little p) }, tt),
)

length-info : (p : Params) → 4 + length (encode_all (info_attrs p)) < 2 ^ 16
unfolding encode_all align4
length-info p =
    let kind = an Ifla.info_kind (name_attr (kind_of p)) in
    let inner = an Ifla.info_data (encode_all (tunnel_attrs little p)) in
    omega (
      arith,
      length-append (encode kind) (encode inner ++ []),
      length-append (encode inner) [],
      encode_aligned kind,
      encode_aligned inner,
      length-name_attr (kind_of p),
      length-kind_of p,
      length-data little p,
    )

put_link_info-attr :
    (m : Bytes) (p : Params)
    → put_link_info little m p ≡ attr m Ifla.linkinfo (encode_all (info_attrs p))
unfolding put_link_info begin_nested encode_all encode attr
put_link_info-attr m p =
    let content = encode_all (tunnel_attrs little p) in
    let kind = an Ifla.info_kind (name_attr (kind_of p)) in
    let inner = an Ifla.info_data content in
    let start = m ++ attr_header 0 Ifla.linkinfo in
    let info = attr start Ifla.info_kind (name_attr (kind_of p)) in
    ap (λ t. end_nested little (end_nested little t (length info)) (length m))
      (put_data-attrs little (info ++ attr_header 0 Ifla.info_data) p)
    ∙ ap (λ t. end_nested little t (length m))
        (end_nested-attr info Ifla.info_data content (encode_all-aligned (tunnel_attrs little p))
            (omega (arith, length-data little p))
          ∙ append_assoc start (encode kind) (encode inner)
          ∙ ap (λ t. start ++ (encode kind ++ t)) (sym (append-nil (encode inner))))
    ∙ end_nested-attr m Ifla.linkinfo (encode_all (info_attrs p))
        (encode_all-aligned (info_attrs p)) (length-info p)

-- The three attributes of the message.
abbrev pub link_attrs : Params → List NlAttr
link_attrs p =
    an Ifla.ifname (name_attr p.name)
    ∷ an Ifla.mtu (native_bytes little 4 (word_32 p.mtu))
    ∷ an Ifla.linkinfo (encode_all (info_attrs p))
    ∷ []

link_attrs-Fits : (p : Params) → length p.name ≤ 15 → All Fits (link_attrs p)
link_attrs-Fits p short = (
  record { typ_fits = omega arith; length_fits = omega (arith, length-name_attr p.name) },
  (
    record {
      typ_fits = omega arith;
      length_fits = omega (arith, length-native_bytes little 4 (word_32 p.mtu));
    },
    (record { typ_fits = omega arith; length_fits = length-info p }, tt),
  ),
)

start_of : ℕ → Bytes
unfolding new_nlmsg put zeros
start_of seq = put (new_nlmsg little 16 0x605 seq) (zeros 16)

create_gre-attrs :
    (seq : ℕ) (p : Params)
    → create_gre little seq p ≡ finalize little (start_of seq ++ encode_all (link_attrs p))
unfolding create_gre start_of native_u32 attrs encode_all
create_gre-attrs seq p =
    let m = start_of seq in
    let named = attr m Ifla.ifname (name_attr p.name) in
    let sized = attr named Ifla.mtu (native_bytes little 4 (word_32 p.mtu)) in
    ap (finalize little) (put_link_info-attr sized p ∙ attrs-encode_all (link_attrs p) m)

finalize_body : (seq : ℕ) (body : Bytes) → drop 32 (finalize little (start_of seq ++ body)) ≡ body
unfolding finalize start_of put_at native_u32 native_u16 native_bytes le_bytes new_nlmsg put zeros
finalize_body seq body = refl

length-finalize :
    (seq : ℕ) (body : Bytes)
    → length (start_of seq ++ body) < 2 ^ 32
    → native_value little (take 4 (finalize little (start_of seq ++ body)))
      ≡ length (finalize little (start_of seq ++ body))
unfolding finalize start_of put_at native_u32 native_u16 native_bytes native_value le_bytes le_value
    new_nlmsg put zeros
length-finalize seq body short = omega (arith, short)

length-link_attrs :
    (seq : ℕ) (p : Params)
    → length p.name ≤ 15
    → length (start_of seq ++ encode_all (link_attrs p)) < 2 ^ 32
unfolding start_of new_nlmsg put zeros native_u16 native_u32 native_bytes le_bytes encode_all align4
length-link_attrs seq p short =
    let named = an Ifla.ifname (name_attr p.name) in
    let sized = an Ifla.mtu (native_bytes little 4 (word_32 p.mtu)) in
    let info = an Ifla.linkinfo (encode_all (info_attrs p)) in
    omega (
      arith,
      length-append (encode named) (encode sized ++ (encode info ++ [])),
      length-append (encode sized) (encode info ++ []),
      length-append (encode info) [],
      encode_aligned named,
      encode_aligned sized,
      encode_aligned info,
      length-name_attr p.name,
      length-native_bytes little 4 (word_32 p.mtu),
      length-info p,
    )

-- On a host whose words have the low byte first, and for a name of 15 bytes at most, the request of
-- `createGRE` carries its own length, and its attributes are read back: the name, the MTU, and the
-- container with the kind of the outer family and with the attributes of the tunnel, in this order
-- and no others.
pub create_gre-read :
    (seq : ℕ) (p : Params)
    → length p.name ≤ 15
    → let msg = create_gre little seq p in
      (info : Bytes) × (content : Bytes) × (native_value little (take 4 msg) ≡ length msg)
      × (parse_attrs little (drop 32 msg)
          ≡ returns (
              an Ifla.ifname (name_attr p.name)
              ∷ an Ifla.mtu (native_bytes little 4 (word_32 p.mtu))
              ∷ an Ifla.linkinfo info
              ∷ []))
      × (parse_attrs little info
          ≡ returns (an Ifla.info_kind (name_attr (kind_of p)) ∷ an Ifla.info_data content ∷ []))
      × (parse_attrs little content ≡ returns (tunnel_attrs little p))
create_gre-read seq p short =
    let same = create_gre-attrs seq p in
    (
      encode_all (info_attrs p),
      encode_all (tunnel_attrs little p),
      ap (λ m. native_value little (take 4 m)) same
          ∙ length-finalize seq (encode_all (link_attrs p)) (length-link_attrs seq p short)
          ∙ ap length (sym same),
      ap (λ m. parse_attrs little (drop 32 m)) same
          ∙ ap (parse_attrs little) (finalize_body seq (encode_all (link_attrs p)))
          ∙ parse_attrs-encode_all (link_attrs p) (link_attrs-Fits p short),
      parse_attrs-encode_all (info_attrs p) (info_attrs-Fits p),
      parse_attrs-encode_all (tunnel_attrs little p)
          (Small-Fits (tunnel_attrs little p) (tunnel_attrs-Small little p)),
    )
