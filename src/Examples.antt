-- ===== src/Examples.antt =====
-- The theorems at concrete inputs.
pub mod Codec
pub mod Db
pub mod Udp
pub mod Cache
pub mod Kv
