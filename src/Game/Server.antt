-- ===== src/Game/Server.antt =====
-- bin/server.rs: a round of the server's loop. What is logged is left out. The instants that the
-- calls of a round read are a `Clock`; a panic is `none`.
pub mod Clients
pub mod Steps
pub mod Total
pub mod Broadcast
pub mod Newest
pub mod Simulation
pub mod Greeted
use riftnet_rust.Base.{
  ℕ, suc, ◌+◌, ◌*◌, ◌^◌, Bool, true, false, List, [], ◌∷◌, Option, none, some, leb, ◌==◌,
  if◌then◌else◌, take, drop, length,
}
use riftnet_rust.Base.Bits.{u64}
use riftnet_rust.Base.Bytes.{take_bytes, ◌>>=◌}
use riftnet_rust.Core.{Result, ok, err}
use riftnet_rust.Float.{F32}
use riftnet_rust.Compression.{Lz4}
use riftnet_rust.Encryption.{Aead}
use riftnet_rust.Protocol.Packet.{
  PacketType, packet_code, InputPacket, SnapshotHeader, GeneralPacketHeader, read_from_prefix,
  general_wire, input_wire, size_of,
}
use riftnet_rust.Connection.Conn.{Connection}
use riftnet_rust.Connection.Table.{SocketAddr, lookup, contains_key, or_insert}
use riftnet_rust.Connection.Manager.{
  ConnectionManager, handle_packet, get_active_connections, send_to_client, flush_all,
  evict_stale_connections,
}
use riftnet_rust.Connection.Manager
use riftnet_rust.Transport.Interpolator.{Snapshot, push_snapshot}
use riftnet_rust.Transport.Transporter.{NetworkReactor, Transporter, poll, send_all}
use riftnet_rust.Transport.Transporter
use riftnet_rust.Game.World.{WorldState, Hasher, calculate_hash, origin}
use riftnet_rust.Game.Sessions.{ClientSession, fresh_session, receive_input, run_tick}
use riftnet_rust.Game.Client.{snapshot_packet}

-- The instant at which packet `i` of a poll is handled, its elapsed nanoseconds, and the instants of
-- the sends, the eviction and the flush.
pub record Clock : Type 0 where
  pub received : ℕ → ℕ
  pub nanos : ℕ → ℕ
  pub queued : ℕ
  pub evicted : ℕ
  pub flushed : ℕ

-- The input in what the manager hands over; a packet of another kind or an undersized one has none.
-- A slice past the end panics.
unfoldable pub read_input_packet : List ℕ → Option (Option InputPacket)
read_input_packet app_data = elim (read_from_prefix ⦃w = general_wire⦄ app_data) [
  | none ↦ some none
  | some gen_hdr ↦
      if gen_hdr.packet_type == packet_code PacketType.input
      then (if leb (size_of GeneralPacketHeader + size_of InputPacket) (length app_data)
          then elim (take_bytes (size_of GeneralPacketHeader) app_data) [
            | none ↦ none
            | some (header, rest) ↦ elim (take_bytes (size_of InputPacket) rest) [
              | none ↦ none
              | some (buf, more) ↦ some (read_from_prefix ⦃w = input_wire⦄ buf)
            ]
          ]
          else some none)
      else some none
]

pub record Server (A F R : Type 0) : Type 0 where
  pub transporter : Transporter WorldState R
  pub manager : ConnectionManager A F
  pub world : WorldState
  pub current_tick : ℕ
  pub client_sessions : List (A × ClientSession)

-- The header of a session's snapshot.
abbrev pub snapshot_header : ℕ → ℕ → ClientSession → SnapshotHeader
snapshot_header tick hash s = record {
  tick = tick;
  state_hash = hash;
  last_input_tick = s.latest_input_tick;
}

-- `Duration::from_secs(5)`
abbrev pub eviction_timeout : ℕ
eviction_timeout = 5 * 10 ^ 9

module _ {A : Type 0} ⦃addrs : SocketAddr A⦄ where
  -- What the manager hands over, in the sessions.
  unfoldable pub take_input :
      A → Option (List ℕ) → List (A × ClientSession) → Option (List (A × ClientSession))
  take_input sender none sessions = some sessions
  take_input sender (some app_data) sessions = elim (read_input_packet app_data) [
    | none ↦ none
    | some none ↦ some sessions
    | some (some pkt) ↦ some (receive_input sessions sender pkt)
  ]

  -- A session for every connection.
  unfoldable pub open_sessions :
      {V : Type 0} → List (A × V) → List (A × ClientSession) → List (A × ClientSession)
  open_sessions [] sessions = sessions
  open_sessions ((a, c) ∷ rest) sessions = open_sessions rest (or_insert a fresh_session sessions)

  -- The sessions whose address is among the connections.
  unfoldable pub purge_sessions :
      {V : Type 0} → List (A × V) → List (A × ClientSession) → List (A × ClientSession)
  purge_sessions active [] = []
  purge_sessions active ((a, s) ∷ rest) =
      let rest' = purge_sessions active rest in
      if contains_key a active then (a, s) ∷ rest' else rest'

module _ {A F : Type 0} ⦃f : F32 F⦄ ⦃lz4 : Lz4⦄ ⦃aead : Aead⦄ ⦃addrs : SocketAddr A⦄ where
  -- The loop over the packets of a poll, from number `i` on.
  unfoldable pub handle_packets :
      Clock
      → ℕ
      → List (List ℕ × A)
      → ConnectionManager A F
      → List (A × ClientSession)
      → Option (ConnectionManager A F × List (A × ClientSession))
  handle_packets clock i [] m sessions = some (m, sessions)
  handle_packets clock i ((packet, sender) ∷ rest) m sessions =
      elim (handle_packet m sender packet (clock.received i) (clock.nanos i)) [
        | none ↦ none
        | some (m', reply) ↦ elim (take_input sender reply sessions) [
          | none ↦ none
          | some sessions' ↦ handle_packets clock (suc i) rest m' sessions'
        ]
      ]

  -- What a poll gave; a failed one is passed over.
  unfoldable pub handle_polled :
      Clock
      → Result (List (List ℕ × A))
      → ConnectionManager A F
      → List (A × ClientSession)
      → Option (ConnectionManager A F × List (A × ClientSession))
  handle_polled clock (ok packets) m sessions = handle_packets clock 0 packets m sessions
  handle_polled clock (err e) m sessions = some (m, sessions)

  -- The snapshot of a tick, queued for every session that has a connection.
  unfoldable pub broadcast :
      ℕ
      → ℕ
      → ℕ
      → WorldState
      → List (A × ClientSession)
      → ConnectionManager A F
      → Option (ConnectionManager A F)
  broadcast now tick hash world [] m = some m
  broadcast now tick hash world ((a, s) ∷ rest) m = elim (lookup a (get_active_connections m)) [
    | none ↦ broadcast now tick hash world rest m
    | some c ↦
        elim (send_to_client m a (snapshot_packet (snapshot_header tick hash s) world) false true
          now) [ none ↦ none | some m' ↦ broadcast now tick hash world rest m' ]
  ]

module _ {A F R : Type 0} ⦃f : F32 F⦄ ⦃lz4 : Lz4⦄ ⦃aead : Aead⦄ ⦃addrs : SocketAddr A⦄
    ⦃hasher : Hasher⦄ ⦃net : NetworkReactor A R⦄ where
  unfoldable pub start : R → Server A F R
  start reactor = record {
    transporter = Transporter.new reactor 128;
    manager = Manager.new;
    world = origin;
    current_tick = 0;
    client_sessions = [];
  }

  -- Steps 4 to 6, after the tick.
  unfoldable pub publish : Clock → Server A F R → Option (Server A F R)
  publish clock srv =
      let snap : Snapshot WorldState = record { tick = srv.current_tick; state = srv.world } in
      let it = push_snapshot srv.transporter.interpolator snap in
      do
        m ←
            broadcast clock.queued srv.current_tick (calculate_hash srv.world) srv.world
              srv.client_sessions srv.manager
        let kept = evict_stale_connections m eviction_timeout clock.evicted
        (m', sent) ← flush_all kept clock.flushed
        some (record srv {
          transporter = send_all sent (record srv.transporter { interpolator = it });
          manager = m';
          client_sessions = purge_sessions (get_active_connections kept) srv.client_sessions;
        })

  -- A round of the loop.
  unfoldable pub serve_round : Clock → Server A F R → Option (Server A F R)
  serve_round clock srv =
      let tick = u64 (srv.current_tick + 1) in
      let (polled, t) = poll {A = A} srv.transporter in
      do
        (m, sessions) ← handle_polled clock polled srv.manager srv.client_sessions
        (sessions', world) ←
            run_tick tick (open_sessions (get_active_connections m) sessions) srv.world
        publish clock (record {
          transporter = t;
          manager = m;
          world = world;
          current_tick = tick;
          client_sessions = sessions';
        })

  -- Rounds of the loop, one for each clock.
  unfoldable pub serve : List Clock → Server A F R → Option (Server A F R)
  serve [] srv = some srv
  serve (clock ∷ clocks) srv = elim (serve_round clock srv) [
    | none ↦ none
    | some srv' ↦ serve clocks srv'
  ]
