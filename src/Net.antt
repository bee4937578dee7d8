-- ===== src/Net.antt =====
-- crates/mymesh-net/src: what carries the messages of a node.
pub mod Rendezvous
