-- ===== src/Examples.antt =====
-- The statements at concrete inputs, with the parameters given by an implementation of theirs.
pub mod Plain
pub mod Devices
pub mod Stores
pub mod Meshes
pub mod Wire
pub mod Sync
pub mod Codec
pub mod Table
pub mod Sessions
pub mod Services
pub mod Joins
pub mod Agents
pub mod Phrases
pub mod Pairs
pub mod Carriers
