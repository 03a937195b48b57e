-- ===== src/Gre.antt =====
-- internal/gre: interface names and the overhead of a tunnel.
pub mod Names
pub mod Naming
pub mod Overhead
pub mod Params
pub mod Link
pub mod Netlink
