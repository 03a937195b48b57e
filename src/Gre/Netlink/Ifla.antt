-- ===== src/Gre/Netlink/Ifla.antt =====
-- The attributes of a link, of linux/if_link.h.
use gremlind.Prelude.{ℕ}

abbrev pub ifname : ℕ
ifname = 3

abbrev pub mtu : ℕ
mtu = 4

abbrev pub linkinfo : ℕ
linkinfo = 18

abbrev pub info_kind : ℕ
info_kind = 1

abbrev pub info_data : ℕ
info_data = 2

abbrev pub af_spec : ℕ
af_spec = 26
