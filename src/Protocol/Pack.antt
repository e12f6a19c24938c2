-- ===== src/Protocol/Pack.antt =====
-- The packs of internal/protocol/pack: each type with its codec, and the union of the types.
pub mod Fields
pub mod Plain
pub mod Wrapped
pub mod Counter
pub mod Object
pub mod Spans
pub mod Batch
pub mod Map
pub mod Xlog
pub mod XlogCodec
pub mod Union
pub mod XlogFilter
pub mod RoundTrip
