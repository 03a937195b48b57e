-- ===== src/MssClamp.antt =====
-- internal/mssclamp/mssclamp.go: firewall rules that clamp the MSS of a tunnel's traffic.
pub mod Rules
pub mod Bounds
pub mod Choosing
pub mod Markers
pub mod Iptables
pub mod Counting
pub mod Clearing
pub mod Expected
pub mod Applying
pub mod Nftables
pub mod Whole
pub mod Installing
pub mod Installed
