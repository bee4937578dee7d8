-- ===== src/Files.antt =====
-- crates/mymesh-files: access to files under a root.
pub mod Sandbox
pub mod Chunks
pub mod Transfer
