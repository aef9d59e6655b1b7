-- ===== src/Game/Server/Newest.antt =====
-- bin/server.rs: the tick of the server and the newest snapshot of its history.
use riftnet_rust.Base.{
  ℕ, ◌+◌, ◌^◌, ◌<◌, ◌≡◌, inl, inr, refl, ◌∙◌, ap, false, some, List, [], ◌∷◌, length, arith,
  Option-cases,
}
use riftnet_rust.Float.{F32}
use riftnet_rust.Compression.{Lz4}
use riftnet_rust.Encryption.{Aead}
use riftnet_rust.Connection.Table.{SocketAddr}
use riftnet_rust.Transport.Interpolator.{Snapshot, Interpolator, back, is_stale, push_snapshot}
use riftnet_rust.Transport.Interpolator
use riftnet_rust.Transport.Interpolator.Search.{IsValid, push_snapshot_lem}
use riftnet_rust.Transport.Transporter.{NetworkReactor, poll}
use riftnet_rust.Transport.Transporter
use riftnet_rust.Game.World.{WorldState, Hasher}
use riftnet_rust.Game.Server.{Clock, Server, start, serve_round, serve}
use riftnet_rust.Game.Server.Steps.{publish-Published, serve_round-Rounded, ticked}

module _ {A F R : Type 0} ⦃f : F32 F⦄ ⦃lz4 : Lz4⦄ ⦃aead : Aead⦄ ⦃addrs : SocketAddr A⦄
    ⦃hasher : Hasher⦄ ⦃net : NetworkReactor A R⦄ where
  -- The server's world at its tick.
  abbrev pub present : Server A F R → Snapshot WorldState
  present srv = record { tick = srv.current_tick; state = srv.world }

  -- After `n` ticks.
  record Ticked (n : ℕ) (srv : Server A F R) : Type 0 where
    now : srv.current_tick ≡ n
    valid : IsValid srv.transporter.interpolator
    newer :
        (s : Snapshot WorldState)
        → n < s.tick
        → is_stale (back srv.transporter.interpolator.buffer) s ≡ false

  serve_round-Ticked :
      (n next : ℕ) (clock : Clock) (srv srv' : Server A F R)
      → next ≡ n + 1
      → next < 2 ^ 64
      → serve_round clock srv ≡ some srv'
      → Ticked n srv
      → Ticked next srv' × (back srv'.transporter.interpolator.buffer ≡ some (present srv'))
  unfolding poll
  serve_round-Ticked n next clock srv srv' q small e t =
      let r = serve_round-Rounded clock srv srv' e in
      let mid = ticked srv r.manager r.sessions r.world in
      let p = publish-Published clock mid srv' r.published in
      let it = srv.transporter.interpolator in
      let now' : srv'.current_tick ≡ next = p.same_tick ∙ omega (arith, t.now, q, small) in
      let (_, valid, outcome) = push_snapshot_lem it (present mid) 0 t.valid in
      let fresh = t.newer (present mid) (omega (arith, t.now, q, small)) in
      let last : back srv'.transporter.interpolator.buffer ≡ some (present mid) =
        ap (λ i. back i.buffer) p.shown ∙ elim outcome [
          | inl (stale, _) ↦ absurd (ground (arith, stale, fresh))
          | inr (_, d) ↦ d
        ] in
      (
        record {
          now = now';
          valid = rw p.shown valid;
          newer = λ s later. rw last (ground (arith, now', q, p.same_tick, later));
        },
        last ∙ ground (arith, p.same_tick, p.same_world),
      )

  serve-Ticked :
      (n last : ℕ) (clocks : List Clock) (clock : Clock) (srv srv' : Server A F R)
      → last ≡ n + 1 + length clocks
      → last < 2 ^ 64
      → serve (clock ∷ clocks) srv ≡ some srv'
      → Ticked n srv
      → Ticked last srv' × (back srv'.transporter.interpolator.buffer ≡ some (present srv'))
  unfolding serve
  serve-Ticked n last [] clock srv srv' q small e t =
      serve_round-Ticked n last clock srv srv' (omega (arith, q)) small (only e) t
    where
      only : serve (clock ∷ []) srv ≡ some srv' → serve_round clock srv ≡ some srv'
      only e = elim (Option-cases (serve_round clock srv)) [
        | inl d ↦ absurd (ground (arith, d, e))
        | inr (srv1, d) ↦ ground (arith, d, e)
      ]
  serve-Ticked n last (clock' ∷ clocks) clock srv srv' q small e t =
      elim (Option-cases (serve_round clock srv)) [
        | inl d ↦ absurd (ground (arith, d, e))
        | inr (srv1, d) ↦
            serve-Ticked (n + 1) last clocks clock' srv1 srv' (omega (arith, q)) small
              (ground (arith, d, e))
              (serve_round-Ticked n (n + 1) clock srv srv1 refl (omega (arith, q, small)) d t).0
      ]

  -- After one round or more of a new server, fewer than 2^64, the tick is the number of rounds, the
  -- history of snapshots is sorted and bounded, and its newest is the world at that tick.
  pub serve_newest :
      (clock : Clock) (clocks : List Clock) (reactor : R) (srv : Server A F R)
      → length clocks + 1 < 2 ^ 64
      → serve (clock ∷ clocks) (start reactor) ≡ some srv
      → (srv.current_tick ≡ length clocks + 1)
        × IsValid srv.transporter.interpolator
        × (back srv.transporter.interpolator.buffer
            ≡ some (record { tick = length clocks + 1; state = srv.world }))
  unfolding start Transporter.new Interpolator.new
  serve_newest clock clocks reactor srv small e =
      let begun : Ticked 0 (start {A = A} {F = F} reactor) = record {
        now = refl;
        valid = record { sorted = tt; bounded = omega arith };
        newer = λ s later. refl;
      } in
      let (t, last) =
        serve-Ticked 0 (length clocks + 1) clocks clock (start reactor) srv (omega arith) small e
          begun in
      (t.now, t.valid, last ∙ ap (λ k. some (record { tick = k; state = srv.world })) t.now)
