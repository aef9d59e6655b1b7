-- ===== src/Lib.antt =====
-- riftnet-rust: a reliable and encrypted datagram protocol for deterministic games.
--
-- The program is a set of crates. `protocol` has the structs of the wire, the reliability state of
-- one connection (sequence numbers, acknowledgements, round-trip times, retransmissions) and the
-- history of frames that a client rolls back to. `compression` and `encryption` wrap LZ4 and
-- ChaCha20-Poly1305. `connection` puts them together: a pipeline compresses and encrypts a payload,
-- a `Connection` queues and flushes packets for one peer, and the `ConnectionManager` keeps the
-- connections by address, reads what arrives and runs the handshake. `transport` has the sockets
-- and the buffer of snapshots that a client renders from, and `core` a thread pool. The binaries are a server, a
-- client and a swarm of clients over UDP sockets.
--
-- Which module is which part of the code:
--   Protocol.Packet       crates/protocol/src/packet.rs. A packed struct is its fields in order,
--                         little endian; `Wire` has zerocopy's `as_bytes` and `read_from_prefix`.
--   Protocol.History      crates/protocol/src/history.rs: `HistoryBuffer`.
--   Protocol.Sequence     crates/protocol/src/protocol.rs: `is_sequence_more_recent`.
--   Protocol.Window       step 4 of `process_incoming_header`. `Window.Spec` is what it promises.
--   Protocol.Reliable     `ReliableConnectionState`, with the closure and the loops of the source
--                         as functions on lists.
--   Core                  crates/core/src/core.rs: `RiftError`.
--   Core.ThreadPool       crates/core/src/threading.rs: the workers and callers of `TaskThreadPool` as
--                         steps on their shared state.
--   Compression           crates/compression/src/compressor.rs.
--   Encryption            crates/encryption/src/encryptor.rs.
--   Connection.Replay     crates/connection/src/connection.rs: `AntiReplayWindow`; the method
--                         `record` is `record_nonce`.
--   Connection.Pipeline   crates/connection/src/pipeline.rs and the trait `NetworkPipeline`.
--   Connection.Conn       crates/connection/src/connection.rs: `Connection`. Its `update` gives the
--                         datagrams that `send_func` is called with as a list, in order.
--   Connection.Table      the standard library's `HashMap` from socket addresses.
--   Connection.Receive    crates/connection/src/manager.rs: the body of `handle_packet` that works
--                         on one connection.
--   Connection.Manager    crates/connection/src/manager.rs: `ConnectionManager`.
--   Transport             crates/transport/src/interpolator.rs, transporter.rs and reactor.rs.
--   Game.World            bin/server.rs and bin/client.rs: `WorldState`, its hash, its physics and, in
--                         `Lerp`, its interpolation, with crates/core/src/fixed_vec3.rs.
--   Game.Sessions         bin/server.rs: the sessions and the inputs of a tick.
--   Game.Server           bin/server.rs: the round of the loop, `serve_round`, over the transporter
--                         and the manager.
--   Game.Client           bin/client.rs: the snapshot packet, prediction and rollback.
--   Game.Client.State     bin/client.rs: the state of its loops, and what a snapshot does to it.
--   Game.Client.Loop      bin/client.rs: the rounds of its two loops, `sync_round` and `play_round`.
--   Game.Swarm            bin/client_swarm.rs.
--   Game.Ticks            the maps from ticks and the input packet that both clients have.
--   Float                 the arithmetic of `f32` as an interface.
--   Base                  tests, lists, bits, words and bytes that the others share.
--   Tests                 concrete instances, on which the theorems are applied.
--
-- Conventions. A method on `&mut self` is a function from the state to the new state, with its
-- result beside it. A panic is `none`, that of a slice or of an index past the end too; for the ring
-- of frames, where `insert` and `get` are the accesses in bounds, the callers test `in_bounds`.
-- Machine integers wrap as in a release build, and a shift is
-- by its amount modulo the width; `usize` has 64 bits. An `Instant` is a number of nanoseconds, and
-- `duration_since` stops at zero; the calls of `Instant::now()` inside one operation give the one
-- argument `now`, and `nanos` is what `Instant::now().elapsed()` gives in it. The field `data` of a
-- packet is called `payload`. Every loop of the source runs over a list, and is structural
-- recursion on it, but for these: the workers' loop of the thread pool, a relation on steps; the
-- client's `while` of a rollback, on fuel for the three ticks that it has at most; the drain of a
-- socket, on fuel, where more than the datagrams that wait is enough; and the endless loops of the
-- binaries, which run for the rounds of a list of instants, one for each round.
--
-- Parameters. LZ4 (`Lz4`, with its round trip `IsLz4`) and the cipher (`Aead`, with `IsAead`) are
-- arguments, as are the arithmetic of `f32` (`F32`, with `IsF32` where a bound on the retransmission
-- timeout needs it), its conversions (`F32Cast`, with `IsF32Cast` where the ends of an interpolation
-- need them), the type of socket addresses (`SocketAddr`), the standard library's hasher (`Hasher`)
-- and a UDP socket (`UdpSocket`, with `Drains` while nothing arrives). The server and the clients run
-- over any `NetworkReactor`.
--
-- Not modelled: what is logged, the waits for the ticker, the channels of the thread pool's results,
-- and the pools that the server and the client make and never use.
pub mod Base
pub mod Float
pub mod Protocol
pub mod Core
pub mod Compression
pub mod Encryption
pub mod Connection
pub mod Transport
pub mod Game
pub mod Tests
