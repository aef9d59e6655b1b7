-- ===== src/Game/Server/Clients.antt =====
-- bin/server.rs: the sessions and the connections of the server have the same addresses.
use riftnet_rust.Base.{
  ℕ, ◌+◌, ◌≡◌, refl, ◌∙◌, inl, inr, Bool, true, false, some, List, [], ◌∷◌, arith, ltb, ◌-◌, ◌||◌,
  ◌&&◌, Option-cases, bit_or,
}
use riftnet_rust.Base.Bits.{u64}
use riftnet_rust.Float.{F32}
use riftnet_rust.Compression.{Lz4}
use riftnet_rust.Encryption.{Aead}
use riftnet_rust.Connection.Conn.{Connection, queue_pending_send}
use riftnet_rust.Connection.Table.{SocketAddr, lookup, put, contains_key, or_insert}
use riftnet_rust.Connection.Table.Keys.{
  contains_key-or_insert, contains_key-put_found, contains_key-retain,
}
use riftnet_rust.Connection.Manager.{
  ConnectionManager, send_to_client, flush_connections, flush_all, evict_stale_connections,
}
use riftnet_rust.Connection.Manager.Flush.{contains_key-flush_connections}
use riftnet_rust.Transport.Transporter.{NetworkReactor}
use riftnet_rust.Game.World.{WorldState, Hasher, step_physics, calculate_hash}
use riftnet_rust.Game.Sessions.{
  ClientSession, fresh_session, advance_session, run_sessions, run_tick,
}
use riftnet_rust.Game.Client.{snapshot_packet}
use riftnet_rust.Game.Server.{
  Clock, Server, open_sessions, purge_sessions, snapshot_header, broadcast, publish, serve_round,
  eviction_timeout,
}
use riftnet_rust.Game.Server.Steps.{publish-Published, ticked, serve_round-Rounded}

module _ {A : Type 0} ⦃addrs : SocketAddr A⦄ where
  pub contains_key-open_sessions :
      {V : Type 0} (a : A) (conns : List (A × V)) (sessions : List (A × ClientSession))
      → contains_key a (open_sessions conns sessions)
        ≡ (contains_key a conns || contains_key a sessions)
  unfolding open_sessions lookup
  contains_key-open_sessions a [] sessions = refl
  contains_key-open_sessions a ((j, c) ∷ rest) sessions = ground (
    arith,
    contains_key-open_sessions a rest (or_insert j fresh_session sessions),
    contains_key-or_insert j a fresh_session sessions,
  )

  pub contains_key-purge_sessions :
      {V : Type 0} (a : A) (conns : List (A × V)) (sessions : List (A × ClientSession))
      → contains_key a (purge_sessions conns sessions)
        ≡ (contains_key a conns && contains_key a sessions)
  unfolding purge_sessions lookup
  contains_key-purge_sessions a conns [] = ground arith
  contains_key-purge_sessions a conns ((j, s) ∷ rest) =
      ground (arith, contains_key-purge_sessions a conns rest, addrs.same_addr_iff j a)

  pub contains_key-run_sessions :
      (a : A) (now : ℕ) (sessions : List (A × ClientSession)) (inputs : ℕ)
      → contains_key a (run_sessions now sessions inputs).0 ≡ contains_key a sessions
  unfolding run_sessions lookup
  contains_key-run_sessions a now [] inputs = refl
  contains_key-run_sessions a now ((j, s) ∷ rest) inputs = ground (
    arith,
    contains_key-run_sessions a now rest (bit_or inputs (advance_session now s).last_known_input),
  )

  pub contains_key-run_tick :
      (a : A) (now : ℕ) (sessions sessions' : List (A × ClientSession)) (world world' : WorldState)
      → run_tick now sessions world ≡ some (sessions', world')
      → contains_key a sessions' ≡ contains_key a sessions
  unfolding run_tick
  contains_key-run_tick a now sessions sessions' world world' e =
      elim (Option-cases (step_physics world (run_sessions now sessions 0).1)) [
        | inl d ↦ absurd (ground (arith, d))
        | inr (w, d) ↦ ground (arith, d, contains_key-run_sessions a now sessions 0)
      ]

module _ {A F : Type 0} ⦃f : F32 F⦄ ⦃lz4 : Lz4⦄ ⦃aead : Aead⦄ ⦃addrs : SocketAddr A⦄ where
  pub send_to_client_found :
      (m : ConnectionManager A F) (a : A) (c : Connection A F) (bytes : List ℕ)
      (reliable is_server : Bool) (now : ℕ)
      → lookup a m.connections ≡ some c
      → send_to_client m a bytes reliable is_server now
        ≡ some (record { connections = put a (queue_pending_send c bytes reliable) m.connections })
  unfolding send_to_client
  send_to_client_found m a c bytes reliable is_server now found = rw (send_to_client, found) refl

  contains_key-broadcast :
      (a : A) (now tick hash : ℕ) (world : WorldState) (sessions : List (A × ClientSession))
      (m m' : ConnectionManager A F)
      → broadcast now tick hash world sessions m ≡ some m'
      → contains_key a m'.connections ≡ contains_key a m.connections
  unfolding broadcast
  contains_key-broadcast a now tick hash world [] m m' e = ground arith
  contains_key-broadcast a now tick hash world ((j, s) ∷ rest) m m' e =
      let packet = snapshot_packet (snapshot_header tick hash s) world in
      elim (Option-cases (lookup j m.connections)) [
        | inl d ↦ contains_key-broadcast a now tick hash world rest m m' (ground (arith, d))
        | inr (c, d) ↦
            (let sent = send_to_client_found m j c packet false true now d in
              let m1 : ConnectionManager A F = record {
                connections = put j (queue_pending_send c packet false) m.connections;
              } in
              contains_key-broadcast a now tick hash world rest m1 m' (ground (arith, d, sent))
              ∙ contains_key-put_found j a (queue_pending_send c packet false) c m.connections d)
      ]

  pub flush_all-steps :
      (m m' : ConnectionManager A F) (now : ℕ) (sent : List (List ℕ × A))
      → flush_all m now ≡ some (m', sent)
      → flush_connections now m.connections ≡ some (m'.connections, sent)
  unfolding flush_all
  flush_all-steps m m' now sent e = elim (Option-cases (flush_connections now m.connections)) [
    | inl d ↦ absurd (ground (arith, d))
    | inr ((conns, out), d) ↦ ground (arith, d)
  ]

module _ {A F R : Type 0} ⦃f : F32 F⦄ ⦃lz4 : Lz4⦄ ⦃aead : Aead⦄ ⦃addrs : SocketAddr A⦄
    ⦃hasher : Hasher⦄ ⦃net : NetworkReactor A R⦄ where
  publish-same_clients :
      (clock : Clock) (srv srv' : Server A F R) (a : A)
      → (contains_key a srv.manager.connections ≡ true → contains_key a srv.client_sessions ≡ true)
      → publish clock srv ≡ some srv'
      → contains_key a srv'.client_sessions ≡ contains_key a srv'.manager.connections
  unfolding evict_stale_connections
  publish-same_clients clock srv srv' a known e =
      let p = publish-Published clock srv srv' e in
      let kept = evict_stale_connections p.told eviction_timeout clock.evicted in
      let here =
        contains_key-broadcast a clock.queued srv.current_tick (calculate_hash srv.world) srv.world
          srv.client_sessions srv.manager p.told p.broadcasted in
      let there =
        contains_key-flush_connections a clock.flushed kept.connections srv'.manager.connections
          p.sent (flush_all-steps kept srv'.manager clock.flushed p.sent p.flushed) in
      rw p.purged (
        ground (
          arith,
          here,
          there,
          known,
          contains_key-purge_sessions a kept.connections srv.client_sessions,
          contains_key-retain (λ c. ltb (clock.evicted - c.last_seen) eviction_timeout) a
              p.told.connections,
        ))

  -- After a round of the server that does not panic, exactly the addresses with a connection have
  -- a session.
  pub same_clients :
      (clock : Clock) (srv srv' : Server A F R) (a : A)
      → serve_round clock srv ≡ some srv'
      → contains_key a srv'.client_sessions ≡ contains_key a srv'.manager.connections
  same_clients clock srv srv' a e =
      let r = serve_round-Rounded clock srv srv' e in
      let now = u64 (srv.current_tick + 1) in
      let opened = contains_key-open_sessions a r.manager.connections r.received in
      let kept =
        contains_key-run_tick a now (open_sessions r.manager.connections r.received) r.sessions
          srv.world r.world r.ran in
      publish-same_clients clock (ticked srv r.manager r.sessions r.world) srv' a
        (λ known. ground (arith, opened, kept)) r.published
