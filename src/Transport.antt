-- ===== src/Transport.antt =====
-- crates/transport: the buffer of snapshots that a client renders from, and the transporter.
pub mod Interpolator
pub mod Transporter
pub mod Reactor
