-- ===== src/Protocol.antt =====
-- crates/mymesh-protocol: channels, frames and messages.
pub mod Channel
pub mod Frame
pub mod Messages
