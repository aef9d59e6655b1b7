-- ===== src/Game/Server/Simulation.antt =====
-- bin/server.rs: the server's loop as the simulation of its world.
use riftnet_rust.Base.{
  bit_or, none, ℕ, suc, ◌+◌, ◌≡◌, inl, inr, refl, ◌∙◌, ap, sym, some, List, [], ◌∷◌, length, arith,
  Option-cases,
}
use riftnet_rust.Base.Bits.{u64}
use riftnet_rust.Float.{F32}
use riftnet_rust.Compression.{Lz4}
use riftnet_rust.Encryption.{Aead}
use riftnet_rust.Connection.Table.{SocketAddr}
use riftnet_rust.Transport.Transporter.{NetworkReactor, poll}
use riftnet_rust.Game.World.{WorldState, Hasher, step_physics, origin}
use riftnet_rust.Game.Sessions.{
  current_input, advance_session, ClientSession, run_sessions, run_tick,
}
use riftnet_rust.Game.Client.Agreement.{world_after}
use riftnet_rust.Game.Server.{
  handle_polled, Clock, Server, open_sessions, start, serve_round, serve,
}
use riftnet_rust.Game.Server.Total.{serve_total}
use riftnet_rust.Game.Server.Steps.{serve_round-Rounded, publish-Published, ticked}

run_tick_steps :
    {A : Type 0} (now : ℕ) (sessions sessions' : List (A × ClientSession)) (w w' : WorldState)
    → run_tick now sessions w ≡ some (sessions', w')
    → step_physics w (run_sessions now sessions 0).1 ≡ some w'
unfolding run_tick
run_tick_steps now sessions sessions' w w' e =
    elim (Option-cases (step_physics w (run_sessions now sessions 0).1)) [
      | inl d ↦ absurd (ground (arith, d, e))
      | inr (w1, d) ↦ ground (arith, d, e)
    ]

-- The inputs of the sessions for a tick, joined.
abbrev pub joined : {A : Type 0} → ℕ → List (A × ClientSession) → ℕ → ℕ
joined now [] inputs = inputs
joined now ((a, s) ∷ rest) inputs = joined now rest (bit_or inputs (current_input now s))

run_sessions-joined :
    {A : Type 0} (now : ℕ) (sessions : List (A × ClientSession)) (inputs : ℕ)
    → (run_sessions now sessions inputs).1 ≡ joined now sessions inputs
unfolding run_sessions advance_session
run_sessions-joined now [] inputs = refl
run_sessions-joined now ((a, s) ∷ rest) inputs =
    run_sessions-joined now rest (bit_or inputs (current_input now s))

module _ {A F R : Type 0} ⦃f : F32 F⦄ ⦃lz4 : Lz4⦄ ⦃aead : Aead⦄ ⦃addrs : SocketAddr A⦄
    ⦃hasher : Hasher⦄ ⦃net : NetworkReactor A R⦄ where
  -- What the clients ask of a round: the inputs of the sessions for its tick, once its packets are
  -- handled and every connection has a session.
  abbrev pub asked : Clock → Server A F R → ℕ
  asked clock srv =
      elim (handle_polled clock (poll {A = A} srv.transporter).0 srv.manager srv.client_sessions) [
        | none ↦ 0
        | some (m, received) ↦
            joined (u64 (srv.current_tick + 1)) (open_sessions m.connections received) 0
      ]

  -- The same for rounds in sequence.
  abbrev pub all_asked : List Clock → Server A F R → List ℕ
  all_asked [] srv = []
  all_asked (clock ∷ clocks) srv = elim (serve_round clock srv) [
    | none ↦ []
    | some srv' ↦ asked clock srv ∷ all_asked clocks srv'
  ]

  -- A round steps the world by what the clients ask.
  serve_round_world :
      (clock : Clock) (srv srv' : Server A F R)
      → serve_round clock srv ≡ some srv'
      → step_physics srv.world (asked clock srv) ≡ some srv'.world
  serve_round_world clock srv srv' e =
      let r = serve_round-Rounded clock srv srv' e in
      let now = u64 (srv.current_tick + 1) in
      let opened = open_sessions r.manager.connections r.received in
      let p = publish-Published clock (ticked srv r.manager r.sessions r.world) srv' r.published in
      let input : asked clock srv ≡ (run_sessions now opened 0).1 =
        rw (asked, r.handled) (sym (run_sessions-joined now opened 0)) in
      rw input
        (run_tick_steps now opened r.sessions srv.world r.world r.ran ∙ ap some (sym p.same_world))

  serve_world :
      (clocks : List Clock) (srv srv' : Server A F R)
      → serve clocks srv ≡ some srv'
      → (length (all_asked clocks srv) ≡ length clocks)
        × (world_after (all_asked clocks srv) srv.world ≡ some srv'.world)
  unfolding serve
  serve_world [] srv srv' e = (refl, ground (arith, e))
  serve_world (clock ∷ clocks) srv srv' e = elim (Option-cases (serve_round clock srv)) [
    | inl d ↦ absurd (ground (arith, d, e))
    | inr (srv1, d) ↦
        (let stepped = serve_round_world clock srv srv1 d in
          let (len, after) = serve_world clocks srv1 srv' (ground (arith, d, e)) in
          (rw (all_asked, d) (ap suc len), rw (all_asked, d, world_after, stepped) after))
  ]

  -- The server's loop refines the bare simulation of a world. Whatever arrives, its rounds do not
  -- panic, and the world afterwards is that of the simulation which begins at the origin and steps,
  -- in each round, by the inputs that the clients' sessions have for its tick, joined.
  pub serve_simulates :
      (clocks : List Clock) (reactor : R)
      → (srv : Server A F R) × (serve clocks (start reactor) ≡ some srv)
        × (length (all_asked clocks (start {A = A} {F = F} reactor)) ≡ length clocks)
        × (world_after (all_asked clocks (start {A = A} {F = F} reactor)) origin ≡ some srv.world)
  unfolding start
  serve_simulates clocks reactor =
      let (srv, e) = serve_total clocks reactor in
      let (len, after) = serve_world clocks (start reactor) srv e in (srv, e, len, after)
