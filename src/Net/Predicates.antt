-- ===== src/Net/Predicates.antt =====
-- The predicates of `netip.Addr`. An IPv4-mapped address is judged as the address that it maps.
use gremlind.Prelude.{ℕ, ◌/◌, ◌%◌, ◌^◌, Bool, false, ◌==◌, nat_eq, if◌then◌else◌}
use gremlind.Net.{Addr, invalid, v4, v6}

-- `Addr.Is4In6`: ::ffff:0:0/96
unfoldable pub mapped : ℕ → Bool
mapped n = n / 2 ^ 32 == 0xffff

-- `Addr.Unmap`
unfoldable pub unmap : Addr → Addr
unfolding mapped
unmap invalid = invalid
unmap (v4 n) = v4 n
unmap (v6 n) = if mapped n then v4 (n % 2 ^ 32) else v6 n

abbrev multicast_block : Addr → Bool
multicast_block invalid = false
multicast_block (v4 n) = n / 2 ^ 28 == 14
multicast_block (v6 n) = n / 2 ^ 120 == 255

-- `Addr.IsMulticast`: 224.0.0.0/4 and ff00::/8
unfoldable pub is_multicast : Addr → Bool
unfolding unmap
is_multicast a = multicast_block (unmap a)

-- `Addr.IsUnspecified`: 0.0.0.0 and ::
unfoldable pub is_unspecified : Addr → Bool
is_unspecified invalid = false
is_unspecified (v4 n) = n == 0
is_unspecified (v6 n) = n == 0

abbrev link_local_block : Addr → Bool
link_local_block invalid = false
link_local_block (v4 n) = n / 2 ^ 16 == 0xa9fe
link_local_block (v6 n) = n / 2 ^ 118 == 0x3fa

-- `Addr.IsLinkLocalUnicast`: 169.254.0.0/16 and fe80::/10
unfoldable pub is_link_local_unicast : Addr → Bool
unfolding unmap
is_link_local_unicast a = link_local_block (unmap a)
