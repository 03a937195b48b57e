-- ===== src/Gre/Netlink/IflaGre.antt =====
-- The constants IFLA_GRE_* of internal/gre/netlink_linux.go.
use gremlind.Prelude.{ℕ}

abbrev pub iflags : ℕ
iflags = 2

abbrev pub oflags : ℕ
oflags = 3

abbrev pub ikey : ℕ
ikey = 4

abbrev pub okey : ℕ
okey = 5

abbrev pub local : ℕ
local = 6

abbrev pub remote : ℕ
remote = 7

abbrev pub ttl : ℕ
ttl = 8

abbrev pub flags : ℕ
flags = 13

abbrev pub encap_type : ℕ
encap_type = 14

abbrev pub encap_flags : ℕ
encap_flags = 15

abbrev pub encap_sport : ℕ
encap_sport = 16

abbrev pub encap_dport : ℕ
encap_dport = 17
