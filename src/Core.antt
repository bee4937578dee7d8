-- ===== src/Core.antt =====
-- crates/mymesh-core: identities, the on-disk stores and their records.
pub mod Identity
pub mod MeshIp
pub mod Device
pub mod Mesh
pub mod Join
pub mod Metrics
pub mod Failure
