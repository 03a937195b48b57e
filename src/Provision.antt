-- ===== src/Provision.antt =====
-- internal/provisionrpc/rpc.go: the privileged broker that the control daemon asks for interfaces.
pub mod Checks
pub mod Naming
pub mod Broker
pub mod Tracking
pub mod Interleaving
pub mod Race
