-- ===== src/Crypto.antt =====
-- crates/mymesh-crypto: identities and signatures.
pub mod Identity
pub mod Words
pub mod Pairing
pub mod WordId
