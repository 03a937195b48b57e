-- ===== src/Tests/LookupTests.antt =====
-- The look-ups of internal/gre/netlink_linux.go and the listing that internal/mssclamp/mssclamp.go
-- reads, on concrete payloads.
use gremlind.Prelude.{◌≡◌, refl, [], ◌∷◌, ◌++◌, none, some, nat_eq, list_eq}
use gremlind.Prelude.Bytes.{Bytes, be_value, be_value_from}
use gremlind.Prelude.Texts.{ascii}
use gremlind.Net.{v4}
use gremlind.Net.Predicates.{unmap}
use gremlind.Gre.Netlink.Words.{little, native_value, le_value}
use gremlind.Gre.Netlink.Message.{align4}
use gremlind.Gre.Netlink.Parse.{returns, parse_attrs, parse_loop}
use gremlind.Gre.Netlink.Links.{
  word, mtu_in, link_mtu_by_index, addr_from_slice, owns, addr_owner, metrics_mtu, route_attr,
  route_attrs, of_route, of_link, path_mtu_in,
}
use gremlind.MssClamp.Nftables.{fields_from, is_space, reversed_onto, after_handle, nft_handle}

-- A link's payload with its index, in front of its attributes.
abbrev link_head : Bytes → Bytes
link_head index = 0 ∷ 0 ∷ 0 ∷ 0 ∷ [] ++ (index ++ (0 ∷ 0 ∷ 0 ∷ 0 ∷ 0 ∷ 0 ∷ 0 ∷ 0 ∷ []))

abbrev mtu_attr : Bytes
mtu_attr = 8 ∷ 0 ∷ 4 ∷ 0 ∷ 220 ∷ 5 ∷ 0 ∷ 0 ∷ []

-- Of two links, the one that is asked for has an MTU of 1500.
mtu_of_second :
    link_mtu_by_index little 7
      (link_head (6 ∷ 0 ∷ 0 ∷ 0 ∷ []) ∷ (link_head (7 ∷ 0 ∷ 0 ∷ 0 ∷ []) ++ mtu_attr) ∷ [])
    ≡ returns (some 1500)
unfolding link_mtu_by_index mtu_in word parse_attrs parse_loop align4 native_value le_value
mtu_of_second = refl

mtu_of_none : link_mtu_by_index little 7 (link_head (6 ∷ 0 ∷ 0 ∷ 0 ∷ []) ∷ []) ≡ returns none
unfolding link_mtu_by_index mtu_in word parse_attrs parse_loop align4 native_value le_value
mtu_of_none = refl

-- 1.2.3.4 is an address of link 9.
owner_found :
    addr_owner little
      (v4 16909060)
      ((2 ∷ 24 ∷ 0 ∷ 0 ∷ 9 ∷ 0 ∷ 0 ∷ 0 ∷ 8 ∷ 0 ∷ 1 ∷ 0 ∷ 1 ∷ 2 ∷ 3 ∷ 4 ∷ []) ∷ [])
    ≡ returns (some 9)
unfolding addr_owner owns addr_from_slice unmap be_value be_value_from word parse_attrs parse_loop
    align4 native_value le_value
owner_found = refl

abbrev route_head : Bytes
route_head = 2 ∷ 32 ∷ 0 ∷ 0 ∷ 254 ∷ 0 ∷ 0 ∷ 1 ∷ 0 ∷ 0 ∷ 0 ∷ 0 ∷ []

abbrev oif_attr : Bytes
oif_attr = 8 ∷ 0 ∷ 4 ∷ 0 ∷ 3 ∷ 0 ∷ 0 ∷ 0 ∷ []

-- The metrics of a route come before its link.
route_mtu_first :
    path_mtu_in little
      ((route_head ++ (oif_attr ++ (12 ∷ 0 ∷ 8 ∷ 0 ∷ 8 ∷ 0 ∷ 2 ∷ 0 ∷ 120 ∷ 5 ∷ 0 ∷ 0 ∷ []))) ∷ [])
    ≡ returns (of_route 1400)
unfolding path_mtu_in route_attrs route_attr metrics_mtu word parse_attrs parse_loop align4
    native_value le_value
route_mtu_first = refl

route_of_link : path_mtu_in little ((route_head ++ oif_attr) ∷ []) ≡ returns (of_link 3)
unfolding path_mtu_in route_attrs route_attr metrics_mtu word parse_attrs parse_loop align4
    native_value le_value
route_of_link = refl

-- The handle is the word behind `handle`.
handle_of_line : nft_handle (ascii "oifname grem2a accept # handle 12") ≡ ascii "12"
unfolding nft_handle after_handle fields_from is_space reversed_onto
handle_of_line = refl

no_handle : nft_handle (ascii "chain forward {") ≡ []
unfolding nft_handle after_handle fields_from is_space reversed_onto
no_handle = refl
