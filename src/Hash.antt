-- ===== src/Hash.antt =====
-- src/hash and include/hash.
pub mod Chained
pub mod Open
