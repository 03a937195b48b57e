-- ===== src/Gre/Netlink/Links.antt =====
-- `dumpLinks`, `linkMTUByIndex`, `addrOwner` and `pathMTU` of internal/gre/netlink_linux.go, on the
-- payloads that `nlExec` returns. An index is the 32-bit word that it is sent as.
use gremlind.Prelude.{
  ℕ, Bool, false, ◌&&◌, ◌||◌, not, List, [], ◌∷◌, Option, none, some, length, take, drop, ltb, leb,
  ◌==◌, nat_eq, list_eq, if◌then◌else◌,
}
use gremlind.Prelude.Bytes.{Bytes, be_value}
use gremlind.Net.{Addr, addr_eq, invalid, v4, v6, is_valid}
use gremlind.Net.Predicates.{unmap}
use gremlind.Gre.Link.{LinkInfo, different_family}
use gremlind.Gre.Netlink.Words.{Endian, native_value}
use gremlind.Gre.Netlink.Parse.{NlAttr, Panicking, returns, panics, parse_attrs, trim_nul}
use gremlind.Gre.Netlink.Ifla

infixl 5 ◌>>=ₚ◌
-- Go code goes on unless a call panics.
abbrev pub ◌>>=ₚ◌ : {A B : Type 0} → Panicking A → (A → Panicking B) → Panicking B
returns a >>=ₚ next = next a
panics >>=ₚ next = panics

-- The word of four bytes at the start.
unfoldable pub word : Endian → Bytes → ℕ
unfolding native_value
word e b = native_value e (take 4 b)

abbrev pub sizeof_if_infomsg : ℕ
sizeof_if_infomsg = 16

abbrev pub sizeof_if_addrmsg : ℕ
sizeof_if_addrmsg = 8

abbrev pub sizeof_rt_msg : ℕ
sizeof_rt_msg = 12

-- The inner loop of `dumpLinks`: the last attribute of the type counts.
unfoldable pub kind_in : List NlAttr → Bytes → Bytes
unfolding trim_nul
kind_in [] kind = kind
kind_in (a ∷ items) kind =
    kind_in items (if a.typ == Ifla.info_kind then trim_nul a.payload else kind)

unfoldable pub link_attr : Endian → LinkInfo → NlAttr → Panicking LinkInfo
unfolding trim_nul kind_in parse_attrs
link_attr e li a =
    if a.typ == Ifla.ifname
    then returns (record li { name = trim_nul a.payload })
    else if a.typ == Ifla.linkinfo
    then (parse_attrs e a.payload >>=ₚ λ items.
        returns (record li { kind = kind_in items li.kind }))
    else returns li

unfoldable pub link_attrs_of : Endian → List NlAttr → LinkInfo → Panicking LinkInfo
unfolding link_attr
link_attrs_of e [] li = returns li
link_attrs_of e (a ∷ items) li = link_attr e li a >>=ₚ link_attrs_of e items

-- What one payload says of a link, whose name is empty where it has none.
unfoldable pub link_of_payload : Endian → Bytes → Panicking LinkInfo
unfolding link_attrs_of parse_attrs word
link_of_payload e p = parse_attrs e (drop sizeof_if_infomsg p) >>=ₚ λ items.
    link_attrs_of e items (record { index = word e (drop 4 p); name = []; kind = [] })

abbrev pub keep_named : LinkInfo → List LinkInfo → List LinkInfo
keep_named li out = if li.name == [] then out else li ∷ out

-- `dumpLinks` on the payloads.
unfoldable pub dump_links : Endian → List Bytes → Panicking (List LinkInfo)
unfolding link_of_payload
dump_links e [] = returns []
dump_links e (p ∷ ps) =
    let rest = dump_links e ps in
    if ltb (length p) sizeof_if_infomsg
    then rest
    else (link_of_payload e p >>=ₚ λ li. rest >>=ₚ λ out. returns (keep_named li out))

-- The first MTU among the attributes that has its four bytes.
unfoldable pub mtu_in : Endian → ℕ → List NlAttr → Option ℕ
unfolding word
mtu_in e t [] = none
mtu_in e t (a ∷ items) =
    let rest = mtu_in e t items in
    if a.typ == t && leb 4 (length a.payload) then some (word e a.payload) else rest

-- `linkMTUByIndex` on the payloads: `none` is its error.
unfoldable pub link_mtu_by_index : Endian → ℕ → List Bytes → Panicking (Option ℕ)
unfolding mtu_in parse_attrs word
link_mtu_by_index e idx [] = returns none
link_mtu_by_index e idx (p ∷ ps) =
    let rest = link_mtu_by_index e idx ps in
    if ltb (length p) sizeof_if_infomsg || not (word e (drop 4 p) == idx)
    then rest
    else (parse_attrs e (drop sizeof_if_infomsg p) >>=ₚ λ items. elim (mtu_in e Ifla.mtu items) [
      | some n ↦ returns (some n)
      | none ↦ rest
    ])

-- `netip.AddrFromSlice`: the zero value for a slice of another length.
unfoldable pub addr_from_slice : Bytes → Addr
addr_from_slice b =
    if length b == 4 then v4 (be_value b) else if length b == 16 then v6 (be_value b) else invalid

-- The loop over the attributes of an address: IFA_ADDRESS and IFA_LOCAL are 1 and 2.
unfoldable pub owns : Addr → List NlAttr → Bool
unfolding addr_from_slice unmap
owns outer [] = false
owns outer (a ∷ items) =
    let ip = addr_from_slice a.payload in
    (a.typ == 1 || a.typ == 2) && (is_valid ip && unmap ip == outer) || owns outer items

-- `addrOwner` on the payloads: `none` is its error.
unfoldable pub addr_owner : Endian → Addr → List Bytes → Panicking (Option ℕ)
unfolding owns parse_attrs word
addr_owner e outer [] = returns none
addr_owner e outer (p ∷ ps) =
    let rest = addr_owner e outer ps in
    if ltb (length p) sizeof_if_addrmsg
    then rest
    else (parse_attrs e (drop sizeof_if_addrmsg p) >>=ₚ λ items.
        if owns outer items then returns (some (word e (drop 4 p))) else rest)

-- What the loop of `pathMTU` has found in one route.
pub record Route : Type 0 where
  pub ifindex : ℕ
  pub route_mtu : ℕ

-- RTAX_MTU is 2; the last one with its four bytes counts.
unfoldable pub metrics_mtu : Endian → List NlAttr → ℕ → ℕ
unfolding word
metrics_mtu e [] found = found
metrics_mtu e (a ∷ items) found =
    metrics_mtu e items (if a.typ == 2 && leb 4 (length a.payload) then word e a.payload else found)

-- RTA_OIF is 4, RTA_METRICS is 8.
unfoldable pub route_attr : Endian → Route → NlAttr → Panicking Route
unfolding metrics_mtu parse_attrs word
route_attr e r a =
    if a.typ == 4
    then returns (if leb 4 (length a.payload) then record r { ifindex = word e a.payload } else r)
    else if a.typ == 8
    then (parse_attrs e a.payload >>=ₚ λ items.
        returns (record r { route_mtu = metrics_mtu e items r.route_mtu }))
    else returns r

unfoldable pub route_attrs : Endian → List NlAttr → Route → Panicking Route
unfolding route_attr
route_attrs e [] r = returns r
route_attrs e (a ∷ items) r = route_attr e r a >>=ₚ route_attrs e items

-- What `pathMTU` makes of the payloads: an MTU, the index of a link whose MTU is asked for, or its
-- error.
pub data PathMtu : Type 0 where
  of_route : ℕ → PathMtu
  of_link : ℕ → PathMtu
  no_route : PathMtu

unfoldable pub path_mtu_in : Endian → List Bytes → Panicking PathMtu
unfolding route_attrs parse_attrs
path_mtu_in e [] = returns no_route
path_mtu_in e (p ∷ ps) =
    let rest = path_mtu_in e ps in
    if ltb (length p) sizeof_rt_msg
    then rest
    else (parse_attrs e (drop sizeof_rt_msg p) >>=ₚ λ items.
        route_attrs e items (record { ifindex = 0; route_mtu = 0 }) >>=ₚ λ r.
        if ltb 0 r.route_mtu
        then returns (of_route r.route_mtu)
        else if r.ifindex == 0
        then rest
        else returns (of_link r.ifindex))

-- The check in front of the look-up.
unfoldable pub path_lookup_valid : Addr → Addr → Bool
path_lookup_valid local remote =
    not (not (is_valid local) || (not (is_valid remote) || different_family local remote))
