-- ===== src/Game.antt =====
-- bin/server.rs and bin/client.rs: the simulated world, the server's tick and the client's rollback.
pub mod World
pub mod Ticks
pub mod Sessions
pub mod Client
pub mod Server
pub mod Swarm
