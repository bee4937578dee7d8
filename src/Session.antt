-- ===== src/Session.antt =====
-- crates/mymesh-session: what runs over a connection to a peer.
pub mod MeshSync
pub mod Handshake
pub mod Call
pub mod Agent
pub mod Delivery
pub mod Channels
pub mod Inbound
pub mod Join
pub mod Magic
pub mod Pair
pub mod Carrier
