-- ===== src/Gre/Netlink/Create.antt =====
-- `createGRE` of internal/gre/netlink_linux.go: the message that asks for a tunnel. The numbers are
-- those of the kernel's headers, partly by golang.org/x/sys/unix.
use gremlind.Prelude.{ℕ, ◌+◌, ◌-◌, ◌%◌, ◌^◌, [], ◌∷◌, ◌==◌, nat_eq, if◌then◌else◌}
use gremlind.Prelude.Bytes.{Bytes, be_bytes}
use gremlind.Prelude.Int.{ℤ, pos, negsuc}
use gremlind.Net.{Addr, invalid, v4, v6, is6}
use gremlind.Gre.Params.{Params}
use gremlind.Gre.Link.{kind_of}
use gremlind.Gre.Netlink.Words.{Endian}
use gremlind.Gre.Netlink.Message.{
  zeros, be_u16, be_u32, native_u16, native_u32, new_nlmsg, put, attr, begin_nested, end_nested,
  finalize,
}
use gremlind.Gre.Netlink.Parse.{name_attr}
use gremlind.Gre.Netlink.Ifla
use gremlind.Gre.Netlink.IflaGre

abbrev pub gre_seq_flag : ℕ
gre_seq_flag = 0x1000

abbrev pub gre_key_flag : ℕ
gre_key_flag = 0x2000

abbrev pub default_tunnel_hop_limit : ℕ
default_tunnel_hop_limit = 64

-- `Addr.AsSlice`
unfoldable pub as_slice : Addr → Bytes
as_slice invalid = []
as_slice (v4 n) = be_bytes 4 n
as_slice (v6 n) = be_bytes 16 n

-- `uint32(mtu)`
abbrev pub word_32 : ℤ → ℕ
word_32 (pos n) = n % 2 ^ 32
word_32 (negsuc n) = 2 ^ 32 - 1 - n % 2 ^ 32

-- The GRE header flags: the two bits are apart, so `|=` adds.
unfoldable pub header_flags : Params → ℕ
header_flags p = (if p.key == 0 then 0 else gre_key_flag) + (if p.seq then gre_seq_flag else 0)

unfoldable pub hop_limit_of : Params → ℕ
hop_limit_of p = if p.hop_limit == 0 then default_tunnel_hop_limit else p.hop_limit

-- The attributes inside of IFLA_INFO_DATA.
unfoldable pub put_keys : Bytes → Params → Bytes
unfolding attr be_u32
put_keys m p =
    if p.key == 0 then m else attr (attr m IflaGre.ikey (be_u32 p.key)) IflaGre.okey (be_u32 p.key)

unfoldable pub put_flags : Bytes → Params → Bytes
unfolding attr be_u16 header_flags
put_flags m p =
    if header_flags p == 0
    then m
    else attr (attr m IflaGre.iflags (be_u16 (header_flags p))) IflaGre.oflags
        (be_u16 (header_flags p))

unfoldable pub put_ends : Bytes → Params → Bytes
unfolding attr as_slice hop_limit_of
put_ends m p =
    attr (attr (attr m IflaGre.local (as_slice p.local)) IflaGre.remote (as_slice p.remote))
      IflaGre.ttl (hop_limit_of p ∷ [])

unfoldable pub put_ignore_limit : Endian → Bytes → Params → Bytes
unfolding attr native_u32
put_ignore_limit e m p = if is6 p.local then attr m IflaGre.flags (native_u32 e 1) else m

-- The checksum flag is that of the outer family.
unfoldable pub put_fou : Endian → Bytes → Params → Bytes
unfolding attr native_u16 be_u16
put_fou e m p =
    if p.fou_dport == 0
    then m
    else (let m = attr m IflaGre.encap_type (native_u16 e 1) in
        let m = attr m IflaGre.encap_flags (native_u16 e (if is6 p.local then 2 else 1)) in
        let m = attr m IflaGre.encap_sport (be_u16 p.fou_sport) in
        attr m IflaGre.encap_dport (be_u16 p.fou_dport))

unfoldable pub put_data : Endian → Bytes → Params → Bytes
unfolding put_keys put_flags put_ends put_ignore_limit put_fou
put_data e m p = put_fou e (put_ignore_limit e (put_ends (put_flags (put_keys m p) p) p) p) p

-- The container IFLA_LINKINFO, at the end of the message so far.
unfoldable pub put_link_info : Endian → Bytes → Params → Bytes
unfolding begin_nested end_nested attr name_attr kind_of put_data
put_link_info e m p =
    let (info, info_pos) = begin_nested m Ifla.linkinfo in
    let info = attr info Ifla.info_kind (name_attr (kind_of p)) in
    let (inner, inner_pos) = begin_nested info Ifla.info_data in
    end_nested e (end_nested e (put_data e inner p) inner_pos) info_pos

-- The request that `createGRE` sends, with the number of the message.
unfoldable pub create_gre : Endian → ℕ → Params → Bytes
unfolding new_nlmsg put attr put_link_info finalize zeros name_attr native_u32
create_gre e seq p =
    let m = put (new_nlmsg e 16 0x605 seq) (zeros 16) in
    let m = attr m Ifla.ifname (name_attr p.name) in
    let m = attr m Ifla.mtu (native_u32 e (word_32 p.mtu)) in finalize e (put_link_info e m p)
