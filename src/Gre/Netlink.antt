-- ===== src/Gre/Netlink.antt =====
-- internal/gre/netlink_linux.go: rtnetlink messages as bytes.
pub mod Words
pub mod Message
pub mod Parse
pub mod Reading
pub mod Nesting
pub mod Ifla
pub mod IflaGre
pub mod Create
pub mod Tunnel
pub mod Sizes
pub mod Created
pub mod Requests
pub mod Requested
pub mod Links
pub mod Described
pub mod Listing
pub mod Exec
pub mod Replies
pub mod Dumps
