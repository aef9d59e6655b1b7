-- ===== src/Connection.antt =====
-- crates/connection: replay protection, pipelines, one connection, and the manager of all of them.
pub mod Replay
pub mod Pipeline
pub mod Conn
pub mod Table
pub mod Receive
pub mod Manager
