-- ===== src/Gre/Netlink/Requests.antt =====
-- The other requests of internal/gre/netlink_linux.go. The numbers are those of linux/rtnetlink.h,
-- by golang.org/x/sys/unix. An index is the 32-bit word that it is sent as.
use gremlind.Prelude.{ℕ, ◌%◌, ◌^◌, [], ◌∷◌, ◌++◌, if◌then◌else◌}
use gremlind.Prelude.Bytes.{Bytes}
use gremlind.Net.{Addr, is4, width}
use gremlind.Gre.Netlink.Words.{Endian}
use gremlind.Gre.Netlink.Message.{
  zeros, native_u32, new_nlmsg, put, attr, begin_nested, end_nested, finalize,
}
use gremlind.Gre.Netlink.Ifla
use gremlind.Gre.Netlink.Create.{as_slice}

-- `addrFamily`
unfoldable pub addr_family : Addr → ℕ
addr_family a = if is4 a then 2 else 10

-- `linkDel`
unfoldable pub link_del_request : Endian → ℕ → ℕ → Bytes
unfolding new_nlmsg put finalize zeros native_u32
link_del_request e seq idx =
    finalize e (put (new_nlmsg e 17 0x5 seq) (zeros 4 ++ (native_u32 e idx ++ zeros 8)))

-- `linkSetUp`
unfoldable pub link_set_up_request : Endian → ℕ → ℕ → Bytes
unfolding new_nlmsg put finalize zeros native_u32
link_set_up_request e seq idx = finalize e (
    put (new_nlmsg e 16 0x5 seq)
      (zeros 4 ++ (native_u32 e idx ++ (native_u32 e 1 ++ native_u32 e 1))))

-- `addrAdd`: the flag is IFA_F_NODAD.
unfoldable pub addr_add_request : Endian → ℕ → ℕ → Addr → ℕ → ℕ → Bytes
unfolding new_nlmsg put finalize native_u32 attr addr_family as_slice
addr_add_request e seq idx a prefix scope =
    let ifa = addr_family a ∷ prefix % 2 ^ 8 ∷ 2 ∷ scope ∷ native_u32 e idx in
    let m = put (new_nlmsg e 20 0x505 seq) ifa in
    finalize e (attr (attr m 2 (as_slice a)) 1 (as_slice a))

-- `routeAdd`: the main table, by the boot protocol, of the link's scope, unicast.
unfoldable pub route_add_request : Endian → ℕ → ℕ → Addr → ℕ → Bytes
unfolding new_nlmsg put finalize native_u32 attr addr_family as_slice
route_add_request e seq idx dst prefix =
    let rtm = addr_family dst ∷ prefix % 2 ^ 8 ∷ 0 ∷ 0 ∷ 254 ∷ 3 ∷ 253 ∷ 1 ∷ 0 ∷ 0 ∷ 0 ∷ 0 ∷ [] in
    let m = put (new_nlmsg e 24 0x405 seq) rtm in
    finalize e (attr (attr m 1 (as_slice dst)) 4 (native_u32 e idx))

-- `setAddrGenModeNone`: IFLA_INET6_ADDR_GEN_MODE, none, for AF_INET6 in IFLA_AF_SPEC.
unfoldable pub set_addr_gen_mode_none_request : Endian → ℕ → ℕ → Bytes
unfolding new_nlmsg put finalize zeros native_u32 attr begin_nested end_nested
set_addr_gen_mode_none_request e seq idx =
    let m = put (new_nlmsg e 19 0x5 seq) (zeros 4 ++ (native_u32 e idx ++ zeros 8)) in
    let (af, af_pos) = begin_nested m Ifla.af_spec in
    let (in6, in6_pos) = begin_nested af 10 in
    finalize e (end_nested e (end_nested e (attr in6 8 (1 ∷ [])) in6_pos) af_pos)

-- The request of `pathMTU`.
unfoldable pub route_get_request : Endian → ℕ → Addr → Addr → Bytes
unfolding new_nlmsg put finalize zeros attr addr_family as_slice
route_get_request e seq local remote =
    let rtm = addr_family remote ∷ width remote ∷ width local ∷ zeros 9 in
    let m = put (new_nlmsg e 26 0x1 seq) rtm in
    finalize e (attr (attr m 1 (as_slice remote)) 2 (as_slice local))

-- The dumps of `dumpLinks` and `linkMTUByIndex`, and of `addrOwner`.
unfoldable pub link_dump_request : Endian → ℕ → Bytes
unfolding new_nlmsg put finalize zeros
link_dump_request e seq = finalize e (put (new_nlmsg e 18 0x301 seq) (zeros 16))

unfoldable pub addr_dump_request : Endian → ℕ → Addr → Bytes
unfolding new_nlmsg put finalize zeros addr_family
addr_dump_request e seq outer =
    finalize e (put (new_nlmsg e 22 0x301 seq) (addr_family outer ∷ zeros 7))
