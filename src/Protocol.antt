-- ===== src/Protocol.antt =====
-- crates/protocol: the wire structs, sequence numbers, the reliability state and the history buffer.
pub mod Packet
pub mod History
pub mod Sequence
pub mod Window
pub mod Reliable
