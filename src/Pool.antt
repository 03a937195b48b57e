-- ===== src/Pool.antt =====
-- internal/ippool/pool.go
mod Defs
pub mod Scan
pub mod Allocation
pub mod History
unfoldable pub use Defs.*
