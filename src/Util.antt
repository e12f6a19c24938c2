-- ===== src/Util.antt =====
-- internal/util.
pub mod Hash
pub mod HashTable
pub mod Xor
