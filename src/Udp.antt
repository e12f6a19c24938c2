-- ===== src/Udp.antt =====
-- internal/netio/udp: datagrams, and the packets that agents split over several of them.
pub mod Multipacket
pub mod Fragments
pub mod Reassembly
pub mod Stream
pub mod Size
pub mod Datagrams
pub mod Frames
pub mod Dispatch
