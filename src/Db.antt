-- ===== src/Db.antt =====
-- internal/db: the index files of io, and the key-value store of kv.
pub mod Files
pub mod HashBlock
pub mod KeyRecord
pub mod KeyFile
pub mod IndexKey
pub mod IndexKeyScan
pub mod Kv
