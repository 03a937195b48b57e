-- ===== src/Control.antt =====
-- internal/control: the messages of the control channel, their codec, and its server.
pub mod Admission
pub mod Proto
pub mod Codec
pub mod Frame
pub mod Identity
pub mod Secure
pub mod Handshake
pub mod Dialer
pub mod Keepalive
