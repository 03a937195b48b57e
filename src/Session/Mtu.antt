-- ===== src/Session/Mtu.antt =====
-- `negotiateMTUWithServerOuter` and `minimumTunnelMTU` of internal/session/manager.go.
use gremlind.Prelude.{ℕ, ◌&&◌, not, ◌==◌, nat_eq, if◌then◌else◌}
use gremlind.Prelude.Int.{ℤ, pos, ◌-ℤ◌, leb_ℤ, ltb_ℤ}
use gremlind.Net.{Addr, is6}
use gremlind.Gre.Overhead.{overhead_with_fou}
use gremlind.Session.Defs.{Config}

unfoldable pub minimum_tunnel_mtu : Addr → ℕ
minimum_tunnel_mtu outer = if is6 outer then 1280 else 576

-- The overhead of this manager's tunnels.
unfoldable pub tunnel_overhead : Config → ℕ
tunnel_overhead m =
    overhead_with_fou m.gre_local m.use_gre_key m.use_gre_seq (not (m.fou_port == 0))

-- The outer MTU that both ends can carry.
unfoldable pub common_outer : Config → ℤ → ℤ → ℤ
common_outer m server_outer client_outer =
    let outer = if leb_ℤ server_outer (pos 0) then m.outer_mtu else server_outer in
    if ltb_ℤ (pos 0) client_outer && ltb_ℤ client_outer outer then client_outer else outer

-- `negotiateMTUWithServerOuter`
unfoldable pub negotiate_mtu : Config → ℤ → ℤ → ℤ
unfolding common_outer minimum_tunnel_mtu tunnel_overhead
negotiate_mtu m server_outer client_outer =
    let mtu = common_outer m server_outer client_outer -ℤ pos (tunnel_overhead m) in
    let mtu = if ltb_ℤ (pos 0) m.mtu_cap && ltb_ℤ m.mtu_cap mtu then m.mtu_cap else mtu in
    let min_mtu = pos (minimum_tunnel_mtu m.gre_local) in if ltb_ℤ mtu min_mtu then min_mtu else mtu
