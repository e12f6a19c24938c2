-- ===== src/Protocol.antt =====
-- The wire format of internal/protocol: machine words, the output and input buffers, and the
-- values, steps and packs that are written with them.
pub mod Bits
pub mod Word
pub mod Output
pub mod Input
pub mod Codec
pub mod WordCodec
pub mod DecimalCodec
pub mod SliceCodec
pub mod BlobRef
pub mod Value
pub mod Step
pub mod Pack
pub mod Bounds
pub mod Fuel
pub mod LongArrays
