-- ===== src/Game/Server/Total.antt =====
-- bin/server.rs: the loop of the server does not panic, whatever arrives.
use riftnet_rust.Base.{
  Option, ◌≢◌, none, ℕ, suc, ◌+◌, ◌≡◌, inl, inr, refl, true, false, some, List, [], ◌∷◌, arith,
  Option-cases,
}
use riftnet_rust.Base.Bits.{u64}
use riftnet_rust.Base.Bytes.{to_le_bytes}
use riftnet_rust.Core.{Result, ok, err}
use riftnet_rust.Base.Bytes.{take_bytes_cases}
use riftnet_rust.Game.Sessions.{receive_input}
use riftnet_rust.Float.{F32}
use riftnet_rust.Compression.{Lz4}
use riftnet_rust.Encryption.{Aead}
use riftnet_rust.Protocol.Packet.{SnapshotHeader, general_bytes}
use riftnet_rust.Connection.Conn.{queue_pending_send}
use riftnet_rust.Connection.Conn.Numbers.{has_header}
use riftnet_rust.Connection.Table.{SocketAddr, lookup, put, Every}
use riftnet_rust.Connection.Table.Keys.{Every-put, Every-retain, Every-lookup}
use riftnet_rust.Connection.Manager.{
  ConnectionManager, handle_packet, flush_connections, flush_all, evict_stale_connections,
}
use riftnet_rust.Connection.Manager
use riftnet_rust.Connection.Manager.Safety.{handle_packet_total}
use riftnet_rust.Connection.Manager.Sendable.{handle_packet-Sendable, flush_all_total}
use riftnet_rust.Connection.Receive.Sendable.{Sendable, queue_pending_send-Sendable}
use riftnet_rust.Transport.Transporter.{NetworkReactor, poll}
use riftnet_rust.Game.World.{WorldState, Hasher, calculate_hash}
use riftnet_rust.Game.World.Inhabited.{Inhabited, step_physics_total}
use riftnet_rust.Game.Sessions.{ClientSession, run_sessions, run_tick}
use riftnet_rust.Game.Client.{snapshot_packet}
use riftnet_rust.Game.Server.{
  read_input_packet, Clock, Server, take_input, open_sessions, handle_packets, handle_polled,
  snapshot_header, broadcast, start, publish, serve_round, serve, eviction_timeout,
}
use riftnet_rust.Game.Server.Clients.{send_to_client_found}
use riftnet_rust.Game.Server.Steps.{ticked}

snapshot_packet_header :
    (hdr : SnapshotHeader) (w : WorldState) → has_header (snapshot_packet hdr w) ≡ true
unfolding snapshot_packet general_bytes to_le_bytes
snapshot_packet_header hdr w = refl

run_tick_total :
    {A : Type 0} (now : ℕ) (sessions : List (A × ClientSession)) (w : WorldState)
    → Inhabited w
    → (sessions' : List (A × ClientSession)) × (w' : WorldState) × (run_tick now sessions w
        ≡ some (sessions', w'))
      × Inhabited w'
unfolding run_tick
run_tick_total now sessions w there =
    let (w', e, there') = step_physics_total w (run_sessions now sessions 0).1 there in
    ((run_sessions now sessions 0).0, w', rw (run_tick, e) refl, there')

-- The slices of an input packet are in bounds.
read_input_packet_total : (bs : List ℕ) → read_input_packet bs ≢ none
unfolding read_input_packet
read_input_packet_total bs e = elim (take_bytes_cases 1 bs) [
  | inl (short, d) ↦ ground (arith, d, e, short)
  | inr (front, rest, d, len) ↦ elim (take_bytes_cases 12 rest) [
    | inl (short, d') ↦ ground (arith, d, d', e, short, len)
    | inr (front', more, d', len') ↦ ground (arith, d, d', e)
  ]
]

take_input_total :
    {A : Type 0} ⦃addrs : SocketAddr A⦄ (a : A) (reply : Option (List ℕ))
    (sessions : List (A × ClientSession))
    → (sessions' : List (A × ClientSession)) × (take_input a reply sessions ≡ some sessions')
unfolding take_input
take_input_total a none sessions = (sessions, refl)
take_input_total a (some app_data) sessions = elim (Option-cases (read_input_packet app_data)) [
  | inl d ↦ absurd (read_input_packet_total app_data d)
  | inr (none, d) ↦ (sessions, rw (take_input, d) refl)
  | inr (some pkt, d) ↦ (receive_input sessions a pkt, rw (take_input, d) refl)
]

module _ {A F : Type 0} ⦃f : F32 F⦄ ⦃lz4 : Lz4⦄ ⦃aead : Aead⦄ ⦃addrs : SocketAddr A⦄ where
  handle_packets_total :
      (clock : Clock) (i : ℕ) (packets : List (List ℕ × A)) (m : ConnectionManager A F)
      (sessions : List (A × ClientSession))
      → Every Sendable m.connections
      → (m' : ConnectionManager A F) × (sessions' : List (A × ClientSession)) × (handle_packets
            clock i packets m sessions
          ≡ some (m', sessions'))
        × Every Sendable m'.connections
  unfolding handle_packets
  handle_packets_total clock i [] m sessions ready = (m, sessions, refl, ready)
  handle_packets_total clock i ((bytes, a) ∷ rest) m sessions ready =
      let (m1, reply, e) = handle_packet_total m a bytes (clock.received i) (clock.nanos i) in
      let ready1 =
        handle_packet-Sendable m m1 a bytes (clock.received i) (clock.nanos i) reply ready e in
      let (taken, d) = take_input_total a reply sessions in
      let (m', sessions', e', ready') = handle_packets_total clock (suc i) rest m1 taken ready1 in
      (m', sessions', rw (handle_packets, e, d) e', ready')

  handle_polled_total :
      (clock : Clock) (polled : Result (List (List ℕ × A))) (m : ConnectionManager A F)
      (sessions : List (A × ClientSession))
      → Every Sendable m.connections
      → (m' : ConnectionManager A F) × (sessions' : List (A × ClientSession)) × (handle_polled clock
            polled m sessions
          ≡ some (m', sessions'))
        × Every Sendable m'.connections
  unfolding handle_polled
  handle_polled_total clock (ok packets) m sessions ready =
      handle_packets_total clock 0 packets m sessions ready
  handle_polled_total clock (err e) m sessions ready = (m, sessions, refl, ready)

  broadcast_total :
      (now tick hash : ℕ) (w : WorldState) (sessions : List (A × ClientSession))
      (m : ConnectionManager A F)
      → Every Sendable m.connections
      → (m' : ConnectionManager A F) × (broadcast now tick hash w sessions m ≡ some m')
        × Every Sendable m'.connections
  unfolding broadcast
  broadcast_total now tick hash w [] m ready = (m, refl, ready)
  broadcast_total now tick hash w ((a, s) ∷ rest) m ready =
      let packet = snapshot_packet (snapshot_header tick hash s) w in
      elim (Option-cases (lookup a m.connections)) [
        | inl d ↦
            (let (m', e, ready') = broadcast_total now tick hash w rest m ready in
              (m', rw (broadcast, d) e, ready'))
        | inr (c, d) ↦
            (let c1 = queue_pending_send c packet false in
              let m1 : ConnectionManager A F = record { connections = put a c1 m.connections } in
              let ready1 : Every Sendable m1.connections =
                Every-put Sendable a c1 m.connections
                  (queue_pending_send-Sendable c packet false
                    (snapshot_packet_header (snapshot_header tick hash s) w)
                    (Every-lookup Sendable a c m.connections ready d))
                  ready in
              let (m', e, ready') = broadcast_total now tick hash w rest m1 ready1 in
              (m', rw (broadcast, d, send_to_client_found m a c packet false true now d) e, ready'))
      ]

module _ {A F R : Type 0} ⦃f : F32 F⦄ ⦃lz4 : Lz4⦄ ⦃aead : Aead⦄ ⦃addrs : SocketAddr A⦄
    ⦃hasher : Hasher⦄ ⦃net : NetworkReactor A R⦄ where
  -- What a round relies on, and keeps.
  pub record IsReady (srv : Server A F R) : Type 0 where
    pub sendable : Every Sendable srv.manager.connections
    pub inhabited : Inhabited srv.world

  publish_total :
      (clock : Clock) (srv : Server A F R)
      → IsReady srv
      → (srv' : Server A F R) × (publish clock srv ≡ some srv') × IsReady srv'
  unfolding publish evict_stale_connections
  publish_total clock srv ready =
      let (m, e, r) =
        broadcast_total clock.queued srv.current_tick (calculate_hash srv.world) srv.world
          srv.client_sessions srv.manager ready.sendable in
      let kept = evict_stale_connections m eviction_timeout clock.evicted in
      let (m', sent, e', r') =
        flush_all_total kept clock.flushed (Every-retain Sendable _ m.connections r) in
      elim (Option-cases (publish clock srv)) [
        | inl d ↦ absurd (ground (arith, e, e', d))
        | inr (srv', d) ↦ (
          srv',
          d,
          record {
            sendable = ground (arith, e, e', d, r');
            inhabited = ground (arith, e, e', d, ready.inhabited);
          },
        )
      ]

  pub serve_round_total :
      (clock : Clock) (srv : Server A F R)
      → IsReady srv
      → (srv' : Server A F R) × (serve_round clock srv ≡ some srv') × IsReady srv'
  unfolding serve_round
  serve_round_total clock srv ready =
      let (m, received, e, r) =
        handle_polled_total clock (poll {A = A} srv.transporter).0 srv.manager srv.client_sessions
          ready.sendable in
      let now = u64 (srv.current_tick + 1) in
      let (sessions, w, e', there) =
        run_tick_total now (open_sessions m.connections received) srv.world ready.inhabited in
      let (srv', e'', ready') =
        publish_total clock (ticked srv m sessions w)
          (record { sendable = r; inhabited = there }) in
      (srv', rw (serve_round, e, e') e'', ready')

  serve-IsReady :
      (clocks : List Clock) (srv : Server A F R)
      → IsReady srv
      → (srv' : Server A F R) × (serve clocks srv ≡ some srv')
  unfolding serve
  serve-IsReady [] srv ready = (srv, refl)
  serve-IsReady (clock ∷ clocks) srv ready =
      let (srv1, e, ready1) = serve_round_total clock srv ready in
      let (srv', e') = serve-IsReady clocks srv1 ready1 in (srv', rw (serve, e) e')

  -- However many rounds the server runs from its start, over whatever reactor and at whatever
  -- instants, none panics.
  pub serve_total :
      (clocks : List Clock) (reactor : R)
      → (srv : Server A F R) × (serve clocks (start reactor) ≡ some srv)
  unfolding start Manager.new
  serve_total clocks reactor =
      serve-IsReady clocks (start reactor)
        (record { sendable = tt; inhabited = (record { x = 0; y = 0; z = 0 }, [], refl) })
