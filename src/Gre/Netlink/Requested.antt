-- ===== src/Gre/Netlink/Requested.antt =====
-- The requests of internal/gre/netlink_linux.go for addresses and routes, read back.
use gremlind.Prelude.{
  ℕ, ◌%◌, ◌^◌, ◌<◌, ◌≡◌, refl, ap, ◌∙◌, List, [], ◌∷◌, ◌++◌, take, drop, All, arith,
}
use gremlind.Prelude.Bytes.{Bytes}
use gremlind.Net.{Addr}
use gremlind.Gre.Netlink.Words.{
  little, native_bytes, le_bytes, native_value, native_value-native_bytes,
}
use gremlind.Gre.Netlink.Message.{zeros, native_u16, native_u32, new_nlmsg, put, put_at, finalize}
use gremlind.Gre.Netlink.Parse.{NlAttr, returns, parse_attrs}
use gremlind.Gre.Netlink.Reading.{encode_all, parse_attrs-encode_all}
use gremlind.Gre.Netlink.Nesting.{attrs, attrs-encode_all}
use gremlind.Gre.Netlink.Create.{as_slice}
use gremlind.Gre.Netlink.Tunnel.{an}
use gremlind.Gre.Netlink.Sizes.{small, Small, Small-Fits, length-as_slice, native_small}
use gremlind.Gre.Netlink.Requests.{addr_family, addr_add_request, route_add_request}

module _ (seq idx : ℕ) (a : Addr) (prefix : ℕ) where
  address_attrs-Small : All Small (an 2 (as_slice a) ∷ an 1 (as_slice a) ∷ [])
  address_attrs-Small = (
    small 2 (as_slice a) (omega arith) (length-as_slice a),
    (small 1 (as_slice a) (omega arith) (length-as_slice a), tt),
  )

  address_start : ℕ → Bytes
  unfolding put new_nlmsg native_u32
  address_start scope =
      put (new_nlmsg little 20 0x505 seq)
        (addr_family a ∷ prefix % 2 ^ 8 ∷ 2 ∷ scope ∷ native_u32 little idx)

  abbrev address_items : List NlAttr
  address_items = an 2 (as_slice a) ∷ an 1 (as_slice a) ∷ []

  address_request :
      (scope : ℕ)
      → addr_add_request little seq idx a prefix scope
        ≡ finalize little (address_start scope ++ encode_all address_items)
  unfolding addr_add_request address_start attrs
  address_request scope =
      ap (finalize little) (attrs-encode_all address_items (address_start scope))

  address_header :
      (scope : ℕ) (body : Bytes)
      → let msg = finalize little (address_start scope ++ body) in
        (take 4 (drop 16 msg) ≡ addr_family a ∷ prefix % 2 ^ 8 ∷ 2 ∷ scope ∷ [])
        × (take 4 (drop 20 msg) ≡ native_bytes little 4 idx)
        × (drop 24 msg ≡ body)
  unfolding address_start finalize put_at put new_nlmsg zeros native_u16 native_u32 native_bytes
      le_bytes
  address_header scope body = (refl, refl, refl)

  -- On a host whose words have the low byte first, the request of `addrAdd` holds the family, the
  -- prefix length, the no-DAD flag and the scope, then the index of the link, and its attributes are
  -- read back as the address twice: the local one and the one of the interface.
  pub addr_add_request-read :
      (scope : ℕ)
      → idx < 2 ^ 32
      → let msg = addr_add_request little seq idx a prefix scope in
        (take 4 (drop 16 msg) ≡ addr_family a ∷ prefix % 2 ^ 8 ∷ 2 ∷ scope ∷ [])
        × (native_value little (take 4 (drop 20 msg)) ≡ idx)
        × (parse_attrs little (drop 24 msg) ≡ returns (an 2 (as_slice a) ∷ an 1 (as_slice a) ∷ []))
  addr_add_request-read scope bound =
      let (front, index, body) = address_header scope (encode_all address_items) in
      let same = address_request scope in
      (
        ap (λ m. take 4 (drop 16 m)) same ∙ front,
        ap (λ m. native_value little (take 4 (drop 20 m))) same
            ∙ ap (native_value little) index
            ∙ native_value-native_bytes little 4 idx (omega (arith, bound)),
        ap (λ m. parse_attrs little (drop 24 m)) same
            ∙ ap (parse_attrs little) body
            ∙ parse_attrs-encode_all address_items (Small-Fits address_items address_attrs-Small),
      )

  route_attrs-Small : All Small (an 1 (as_slice a) ∷ an 4 (native_bytes little 4 idx) ∷ [])
  route_attrs-Small = (
    small 1 (as_slice a) (omega arith) (length-as_slice a),
    (native_small little 4 4 idx (omega arith) (omega arith), tt),
  )

  route_start : Bytes
  unfolding put new_nlmsg
  route_start =
      put (new_nlmsg little 24 0x405 seq)
        (addr_family a ∷ prefix % 2 ^ 8 ∷ 0 ∷ 0 ∷ 254 ∷ 3 ∷ 253 ∷ 1 ∷ 0 ∷ 0 ∷ 0 ∷ 0 ∷ [])

  abbrev route_items : List NlAttr
  route_items = an 1 (as_slice a) ∷ an 4 (native_bytes little 4 idx) ∷ []

  route_request :
      route_add_request little seq idx a prefix
      ≡ finalize little (route_start ++ encode_all route_items)
  unfolding route_add_request route_start attrs native_u32
  route_request = ap (finalize little) (attrs-encode_all route_items route_start)

  route_header : (body : Bytes) → drop 28 (finalize little (route_start ++ body)) ≡ body
  unfolding route_start finalize put_at put new_nlmsg zeros native_u16 native_u32 native_bytes
      le_bytes
  route_header body = refl

  -- The attributes of a route request are read back as the destination and the link's index.
  pub route_add_request-read :
      parse_attrs little (drop 28 (route_add_request little seq idx a prefix)) ≡ returns route_items
  route_add_request-read =
      ap (λ m. parse_attrs little (drop 28 m)) route_request
      ∙ ap (parse_attrs little) (route_header (encode_all route_items))
      ∙ parse_attrs-encode_all route_items (Small-Fits route_items route_attrs-Small)
