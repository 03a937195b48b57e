-- ===== src/Control/Codec.antt =====
-- internal/control/codec.go
mod Encoder
mod Decoder
pub mod Grammar
pub mod Cursor
pub mod Refinement
pub mod Payloads
pub mod Fields
pub mod Inversion
pub mod Layout
pub mod Laid
pub mod Exact
pub mod Octets
unfoldable pub use Encoder.*
unfoldable pub use Decoder.*
