-- ===== src/Gre/Netlink/Message.antt =====
-- `nlmsg` of internal/gre/netlink_linux.go: a message that grows at its end.
use gremlind.Prelude.{ℕ, zero, suc, ◌+◌, ◌-◌, ◌*◌, ◌/◌, ◌%◌, ◌^◌, [], ◌∷◌, ◌++◌, length, take, drop}
use gremlind.Prelude.Bytes.{Bytes, be_bytes}
use gremlind.Gre.Netlink.Words.{Endian, native_bytes}

-- `align4`
unfoldable pub align4 : ℕ → ℕ
align4 n = (n + 3) / 4 * 4

unfoldable pub zeros : ℕ → Bytes
zeros zero = []
zeros (suc n) = 0 ∷ zeros n

-- `beU16` and `beU32`
unfoldable pub be_u16 : ℕ → Bytes
be_u16 v = be_bytes 2 v

unfoldable pub be_u32 : ℕ → Bytes
be_u32 v = be_bytes 4 v

-- `nativeU16` and `nativeU32`
unfoldable pub native_u16 : Endian → ℕ → Bytes
native_u16 e v = native_bytes e 2 v

unfoldable pub native_u32 : Endian → ℕ → Bytes
native_u32 e v = native_bytes e 4 v

-- `SizeofNlMsghdr`, `SizeofRtAttr`, `SizeofIfInfomsg`
abbrev pub sizeof_nl_msghdr : ℕ
sizeof_nl_msghdr = 16

abbrev pub sizeof_rt_attr : ℕ
sizeof_rt_attr = 4

-- `newNlmsg`: the length is not known yet, the port is the kernel's.
unfoldable pub new_nlmsg : Endian → ℕ → ℕ → ℕ → Bytes
unfolding zeros native_u16 native_u32
new_nlmsg e typ flags seq =
    zeros 4 ++ (native_u16 e typ ++ (native_u16 e flags ++ (native_u32 e seq ++ zeros 4)))

-- `put`
unfoldable pub put : Bytes → Bytes → Bytes
put m hdr = m ++ hdr

-- The header that `attr` and `beginNested` write: the low byte of each word first.
unfoldable pub attr_header : ℕ → ℕ → Bytes
attr_header l typ = l % 256 ∷ l / 256 % 256 ∷ typ % 256 ∷ typ / 256 % 256 ∷ []

-- `attr`
unfoldable pub attr : Bytes → ℕ → Bytes → Bytes
unfolding align4 zeros attr_header
attr m typ payload =
    let l = sizeof_rt_attr + length payload in
    m ++ (attr_header l typ ++ (payload ++ zeros (align4 l - l)))

-- `beginNested`: the message, and where the container starts.
unfoldable pub begin_nested : Bytes → ℕ → Bytes × ℕ
unfolding attr_header
begin_nested m typ = (m ++ attr_header 0 typ, length m)

-- `native.PutUint16(m.b[pos:], …)` and the like.
unfoldable pub put_at : ℕ → Bytes → Bytes → Bytes
put_at pos word m = take pos m ++ (word ++ drop (pos + length word) m)

-- `endNested`
unfoldable pub end_nested : Endian → Bytes → ℕ → Bytes
unfolding put_at native_u16
end_nested e m pos = put_at pos (native_u16 e ((length m - pos) % 2 ^ 16)) m

-- `finalize`
unfoldable pub finalize : Endian → Bytes → Bytes
unfolding put_at native_u32
finalize e m = put_at 0 (native_u32 e (length m % 2 ^ 32)) m
