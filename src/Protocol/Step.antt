-- ===== src/Protocol/Step.antt =====
-- The profile steps of internal/protocol/step: each type with its codec, and the union of the types.
pub mod Base
pub mod Method
pub mod Message
pub mod Sql
pub mod Call
pub mod Thread
pub mod Socket
pub mod Span
pub mod Union
pub mod RoundTrip
