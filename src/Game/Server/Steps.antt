-- ===== src/Game/Server/Steps.antt =====
-- bin/server.rs: the way through the server's broadcast and through its round.
use riftnet_rust.Base.{ℕ, ◌+◌, ◌≡◌, refl, inl, inr, some, List, [], ◌∷◌, arith, Option-cases}
use riftnet_rust.Base.Bits.{u64}
use riftnet_rust.Float.{F32}
use riftnet_rust.Compression.{Lz4}
use riftnet_rust.Encryption.{Aead}
use riftnet_rust.Connection.Table.{SocketAddr}
use riftnet_rust.Connection.Manager.{ConnectionManager, flush_all, evict_stale_connections}
use riftnet_rust.Transport.Interpolator.{Snapshot, push_snapshot}
use riftnet_rust.Transport.Transporter.{NetworkReactor, Transporter, poll, send, send_all}
use riftnet_rust.Game.World.{WorldState, Hasher, calculate_hash}
use riftnet_rust.Game.Sessions.{ClientSession, run_tick}
use riftnet_rust.Game.Server.{
  Clock, Server, open_sessions, purge_sessions, handle_polled, broadcast, publish, serve_round,
  eviction_timeout,
}

module _ {A T R : Type 0} ⦃net : NetworkReactor A R⦄ where
  -- Sends leave the buffer of snapshots.
  send_all-interpolator :
      (sent : List (List ℕ × A)) (t : Transporter T R)
      → (send_all sent t).interpolator ≡ t.interpolator
  unfolding send_all send
  send_all-interpolator [] t = refl
  send_all-interpolator ((bytes, a) ∷ rest) t = send_all-interpolator rest (send t bytes a).1

module _ {A F R : Type 0} ⦃f : F32 F⦄ ⦃lz4 : Lz4⦄ ⦃aead : Aead⦄ ⦃addrs : SocketAddr A⦄
    ⦃hasher : Hasher⦄ ⦃net : NetworkReactor A R⦄ where
  -- The managers on the way through `publish`, where it does not panic.
  pub record Published (clock : Clock) (srv srv' : Server A F R) : Type 0 where
    pub told : ConnectionManager A F
    pub sent : List (List ℕ × A)
    pub broadcasted :
        broadcast clock.queued srv.current_tick
          (calculate_hash srv.world)
          srv.world
          srv.client_sessions
          srv.manager
        ≡ some told
    pub flushed :
        flush_all (evict_stale_connections told eviction_timeout clock.evicted) clock.flushed
        ≡ some (srv'.manager, sent)
    pub purged :
        srv'.client_sessions
        ≡ purge_sessions
            (evict_stale_connections told eviction_timeout clock.evicted).connections
            srv.client_sessions
    pub shown :
        srv'.transporter.interpolator
        ≡ push_snapshot srv.transporter.interpolator
            (record { tick = srv.current_tick; state = srv.world })
    pub same_world : srv'.world ≡ srv.world
    pub same_tick : srv'.current_tick ≡ srv.current_tick

  pub publish-Published :
      (clock : Clock) (srv srv' : Server A F R)
      → publish clock srv ≡ some srv'
      → Published clock srv srv'
  unfolding publish
  publish-Published clock srv srv' e =
      let snap : Snapshot WorldState = record { tick = srv.current_tick; state = srv.world } in
      let t = record srv.transporter {
        interpolator = push_snapshot srv.transporter.interpolator snap;
      } in
      elim (Option-cases (
        broadcast clock.queued srv.current_tick (calculate_hash srv.world) srv.world
          srv.client_sessions srv.manager)) [
            | inl d ↦ absurd (ground (arith, d))
            | inr (m, d) ↦
                elim (Option-cases (
                  flush_all (evict_stale_connections m eviction_timeout clock.evicted)
                    clock.flushed)) [
                      | inl d' ↦ absurd (ground (arith, d, d'))
                      | inr ((m', sent), d') ↦ record {
                        told = m;
                        sent = sent;
                        broadcasted = d;
                        flushed = ground (arith, d, d');
                        purged = ground (arith, d, d');
                        shown = ground (arith, d, d', send_all-interpolator sent t);
                        same_world = ground (arith, d, d');
                        same_tick = ground (arith, d, d');
                      }
                    ]
          ]

  -- The server between the tick and the broadcast.
  abbrev pub ticked :
      Server A F R → ConnectionManager A F → List (A × ClientSession) → WorldState → Server A F R
  ticked srv m sessions world = record {
    transporter = (poll {A = A} srv.transporter).1;
    manager = m;
    world = world;
    current_tick = u64 (srv.current_tick + 1);
    client_sessions = sessions;
  }

  -- The way through a round that does not panic.
  pub record Rounded (clock : Clock) (srv srv' : Server A F R) : Type 0 where
    pub manager : ConnectionManager A F
    pub received : List (A × ClientSession)
    pub sessions : List (A × ClientSession)
    pub world : WorldState
    pub handled :
        handle_polled clock (poll {A = A} srv.transporter).0 srv.manager srv.client_sessions
        ≡ some (manager, received)
    pub ran :
        run_tick (u64 (srv.current_tick + 1)) (open_sessions manager.connections received) srv.world
        ≡ some (sessions, world)
    pub published : publish clock (ticked srv manager sessions world) ≡ some srv'

  pub serve_round-Rounded :
      (clock : Clock) (srv srv' : Server A F R)
      → serve_round clock srv ≡ some srv'
      → Rounded clock srv srv'
  unfolding serve_round
  serve_round-Rounded clock srv srv' e =
      elim (Option-cases
        (handle_polled clock (poll {A = A} srv.transporter).0 srv.manager srv.client_sessions)) [
          | inl d ↦ absurd (ground (arith, d))
          | inr ((m, received), d) ↦
              elim (Option-cases (
                run_tick (u64 (srv.current_tick + 1)) (open_sessions m.connections received)
                  srv.world)) [
                    | inl d' ↦ absurd (ground (arith, d, d'))
                    | inr ((sessions, world), d') ↦ record {
                      manager = m;
                      received = received;
                      sessions = sessions;
                      world = world;
                      handled = d;
                      ran = d';
                      published = ground (arith, d, d');
                    }
                  ]
        ]
