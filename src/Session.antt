-- ===== src/Session.antt =====
-- internal/session/manager.go
mod Defs
mod Leases
mod Mtu
mod Registry
pub mod Capacity
pub mod Holding
pub mod Looping
pub mod Assignment
pub mod Consistency
pub mod Registering
pub mod Claiming
pub mod Sections
pub mod Establishing
pub mod Ending
pub mod Runs
pub mod Sticky
unfoldable pub use Defs.*
unfoldable pub use Leases.*
unfoldable pub use Mtu.*
unfoldable pub use Registry.*
