-- ===== src/Hash.antt =====
-- src/hash.rs: SHA-256, the digest type and the tagged digest.
pub mod Words
pub mod Stream
pub mod Hex
pub mod Tagged
mod Examples
