-- ===== src/Gre/Netlink/Sizes.antt =====
-- The tunnel attributes of internal/gre/netlink_linux.go fit their lengths.
use gremlind.Prelude.{
  ℕ, ◌*◌, ◌^◌, ◌≤◌, ◌<◌, Bool, true, false, not, List, [], ◌∷◌, ◌++◌, length, length-append, All,
  All-append, ◌==◌, nat_eq, arith, if◌then◌else◌,
}
use gremlind.Prelude.Bytes.{Bytes, be_bytes, length-be_bytes}
use gremlind.Net.{Addr, invalid, v4, v6, is6}
use gremlind.Gre.Params.{Params}
use gremlind.Gre.Netlink.Words.{Endian, native_bytes, length-native_bytes}
use gremlind.Gre.Netlink.Message.{align4, be_u16, be_u32, native_u16, native_u32}
use gremlind.Gre.Netlink.Parse.{NlAttr}
use gremlind.Gre.Netlink.Reading.{encode, encode_all, Fits}
use gremlind.Gre.Netlink.Nesting.{encode_aligned}
use gremlind.Gre.Netlink.IflaGre
use gremlind.Gre.Netlink.Create.{as_slice, header_flags, hop_limit_of}
use gremlind.Gre.Netlink.Tunnel.{
  an, unless, key_attrs, flag_attrs, end_attrs, limit_attrs, fou_attrs, tunnel_attrs,
}

-- The payloads are of 16 bytes at most.
pub record Small (a : NlAttr) : Type 0 where
  pub typ_small : a.typ < 2 ^ 16
  pub payload_small : length a.payload ≤ 16

pub Small-Fits : (items : List NlAttr) → All Small items → All Fits items
Small-Fits [] h = tt
Small-Fits (a ∷ items) h = (
  record { typ_fits = h.0.typ_small; length_fits = omega (arith, h.0.payload_small) },
  Small-Fits items h.1,
)

pub small : (t : ℕ) (payload : Bytes) → t < 2 ^ 16 → length payload ≤ 16 → Small (an t payload)
small t payload h l = record { typ_small = h; payload_small = l }

unless-Small : (test : Bool) (items : List NlAttr) → All Small items → All Small (unless test items)
unless-Small true items h = tt
unless-Small false items h = h

pub length-as_slice : (a : Addr) → length (as_slice a) ≤ 16
unfolding as_slice
length-as_slice invalid = omega arith
length-as_slice (v4 n) = omega (arith, length-be_bytes 4 n)
length-as_slice (v6 n) = omega (arith, length-be_bytes 16 n)

be_small : (t k n : ℕ) → t < 2 ^ 16 → k ≤ 16 → Small (an t (be_bytes k n))
be_small t k n h l = small t (be_bytes k n) h (omega (arith, l, length-be_bytes k n))

pub native_small :
    (e : Endian) (t k n : ℕ) → t < 2 ^ 16 → k ≤ 16 → Small (an t (native_bytes e k n))
native_small e t k n h l =
    small t (native_bytes e k n) h (omega (arith, l, length-native_bytes e k n))

key_attrs-Small : (p : Params) → All Small (key_attrs p)
unfolding be_u32
key_attrs-Small p = unless-Small (p.key == 0) _ (
  be_small IflaGre.ikey 4 p.key (omega arith) (omega arith),
  (be_small IflaGre.okey 4 p.key (omega arith) (omega arith), tt),
)

flag_attrs-Small : (p : Params) → All Small (flag_attrs p)
unfolding be_u16
flag_attrs-Small p = unless-Small (header_flags p == 0) _ (
  be_small IflaGre.iflags 2 (header_flags p) (omega arith) (omega arith),
  (be_small IflaGre.oflags 2 (header_flags p) (omega arith) (omega arith), tt),
)

end_attrs-Small : (p : Params) → All Small (end_attrs p)
end_attrs-Small p = (
  small IflaGre.local (as_slice p.local) (omega arith) (length-as_slice p.local),
  (
    small IflaGre.remote (as_slice p.remote) (omega arith) (length-as_slice p.remote),
    (small IflaGre.ttl (hop_limit_of p ∷ []) (omega arith) (omega arith), tt),
  ),
)

limit_attrs-Small : (e : Endian) (p : Params) → All Small (limit_attrs e p)
unfolding native_u32
limit_attrs-Small e p =
    unless-Small (not (is6 p.local)) _
      (native_small e IflaGre.flags 4 1 (omega arith) (omega arith), tt)

fou_attrs-Small : (e : Endian) (p : Params) → All Small (fou_attrs e p)
unfolding native_u16 be_u16
fou_attrs-Small e p = unless-Small (p.fou_dport == 0) _ (
  native_small e IflaGre.encap_type 2 1 (omega arith) (omega arith),
  (
    native_small e IflaGre.encap_flags 2 _ (omega arith) (omega arith),
    (
      be_small IflaGre.encap_sport 2 p.fou_sport (omega arith) (omega arith),
      (be_small IflaGre.encap_dport 2 p.fou_dport (omega arith) (omega arith), tt),
    ),
  ),
)

pub tunnel_attrs-Small : (e : Endian) (p : Params) → All Small (tunnel_attrs e p)
unfolding tunnel_attrs
tunnel_attrs-Small e p = All-append Small (key_attrs p) _ (key_attrs-Small p) (
    All-append Small (flag_attrs p) _ (flag_attrs-Small p) (
      All-append Small (end_attrs p) _ (end_attrs-Small p) (
        All-append Small (limit_attrs e p) (fou_attrs e p) (limit_attrs-Small e p)
          (fou_attrs-Small e p))))

length-unless : (test : Bool) (items : List NlAttr) → length (unless test items) ≤ length items
length-unless true items = omega arith
length-unless false items = omega arith

length-tunnel_attrs : (e : Endian) (p : Params) → length (tunnel_attrs e p) ≤ 12
unfolding tunnel_attrs
length-tunnel_attrs e p = omega (
  arith,
  length-append (key_attrs p) (flag_attrs p ++ (end_attrs p ++ (limit_attrs e p ++ fou_attrs e p))),
  length-append (flag_attrs p) (end_attrs p ++ (limit_attrs e p ++ fou_attrs e p)),
  length-append (end_attrs p) (limit_attrs e p ++ fou_attrs e p),
  length-append (limit_attrs e p) (fou_attrs e p),
  length-unless (p.key == 0) (an IflaGre.ikey (be_u32 p.key) ∷ an IflaGre.okey (be_u32 p.key) ∷ []),
  length-unless (header_flags p == 0) (
      an IflaGre.iflags (be_u16 (header_flags p))
      ∷ an IflaGre.oflags (be_u16 (header_flags p))
      ∷ []),
  length-unless (not (is6 p.local)) (an IflaGre.flags (native_u32 e 1) ∷ []),
  length-unless (p.fou_dport == 0) (
      an IflaGre.encap_type (native_u16 e 1)
      ∷ an IflaGre.encap_flags (native_u16 e (if is6 p.local then 2 else 1))
      ∷ an IflaGre.encap_sport (be_u16 p.fou_sport)
      ∷ an IflaGre.encap_dport (be_u16 p.fou_dport)
      ∷ []),
)

-- A small attribute takes 20 bytes at most.
pub length-encode_all :
    (items : List NlAttr) → All Small items → length (encode_all items) ≤ 20 * length items
unfolding encode_all align4
length-encode_all [] h = omega arith
length-encode_all (a ∷ items) h = omega (
  arith,
  length-append (encode a) (encode_all items),
  encode_aligned a,
  h.0.payload_small,
  length-encode_all items h.1,
)

pub length-data : (e : Endian) (p : Params) → length (encode_all (tunnel_attrs e p)) ≤ 240
length-data e p =
    omega (
      arith,
      length-encode_all (tunnel_attrs e p) (tunnel_attrs-Small e p),
      length-tunnel_attrs e p,
    )
