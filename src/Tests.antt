-- ===== src/Tests.antt =====
-- Tests of the definitions, and the theorems on concrete inputs.
pub mod PoolTests
pub mod SessionTests
pub mod CodecTests
pub mod SecureTests
pub mod ServerTests
pub mod HandshakeTests
pub mod HealthTests
pub mod ProvisionTests
pub mod LinkTests
pub mod SettingTests
pub mod NetlinkTests
pub mod ClampTests
pub mod ConfigTests
pub mod LookupTests
