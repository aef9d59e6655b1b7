-- ===== src/Game/Client/CatchUp.antt =====
-- bin/client.rs and bin/server.rs: the world that a rollback ends with.
use riftnet_rust.Base.{
  ℕ, suc, ◌+◌, ◌%◌, ◌^◌, ◌<◌, ◌≤◌, ◌≡◌, inl, inr, ◌∙◌, ap, false, List, [], ◌∷◌, some, ◌==◌, length,
  arith, Option-cases,
}
use riftnet_rust.Base.Bits.{u32, u64}
use riftnet_rust.Protocol.Packet.{SnapshotHeader}
use riftnet_rust.Protocol.History.{FrameRecord, HistoryBuffer, insert, get}
use riftnet_rust.Protocol.History.Lookup.{
  in_bounds-IsValid, IsValid, get-insert, insert-IsValid, other_slot,
}
use riftnet_rust.Game.World.{FixedVec3, WorldState, Hasher, step_physics}
use riftnet_rust.Game.Client.{Predictor, predict, recorded_input, replay, reconcile}
use riftnet_rust.Game.Client.Rollback.{frame_of, reconcile-Settled}
use riftnet_rust.Game.Client.Agreement.{world_after, AllMove, step_moves}

-- The history has a frame with a moving input for each of the `n` ticks after one.
abbrev pub Moving : HistoryBuffer WorldState ℕ → ℕ → ℕ → Type 0
Moving h tick n =
    (t : ℕ)
    → tick < t
    → t ≤ tick + n
    → (r : FrameRecord WorldState ℕ) × (get h t ≡ some r) × (r.input % 2 ≡ 1)

-- A frame for the first of these ticks leaves the others.
Moving-insert :
    (k n tick : ℕ) (h : HistoryBuffer WorldState ℕ) (r : FrameRecord WorldState ℕ)
    → IsValid k h
    → r.tick ≡ tick + 1
    → n < 2 ^ k
    → Moving h tick (suc n)
    → Moving (insert h r) (tick + 1) n
Moving-insert k n tick h r v e small moving t above below =
    let (q, found, odd) = moving t (omega arith) (omega arith) in
    (
      q,
      ground (
        arith,
        get-insert k h r t v,
        other_slot (2 ^ k) r.tick t (omega (arith, e, above)) (omega (arith, e, below, small)),
        found,
        e,
      ),
      odd,
    )

module _ ⦃hasher : Hasher⦄ where
  predict_inserts :
      (c c' : Predictor) (input : ℕ)
      → predict c input ≡ some c'
      → (step_physics c.world input ≡ some c'.world)
        × (c'.history ≡ insert c.history (frame_of c'))
        × (c'.predicted_tick ≡ u64 (c.predicted_tick + 1))
  unfolding predict
  predict_inserts c c' input e = elim (Option-cases (step_physics c.world input)) [
    | inl d ↦ absurd (ground (arith, d, e))
    | inr (w, d) ↦ (ground (arith, d, e), ground (arith, d, e), ground (arith, d, e))
  ]

  recorded_moves :
      (n : ℕ) (c : Predictor)
      → c.predicted_tick + suc n < 2 ^ 64
      → Moving c.history c.predicted_tick (suc n)
      → recorded_input c % 2 ≡ 1
  unfolding recorded_input
  recorded_moves n c small moving =
      let (r, found, odd) =
        moving (u64 (c.predicted_tick + 1)) (omega (arith, small)) (omega (arith, small)) in
      rw (recorded_input, found) odd

  -- The replay of a client whose frames all move ends in the world of the server.
  replay_world :
      (k : ℕ) (inputs : List ℕ) (limit : ℕ) (c c' : Predictor) (w : WorldState)
      → IsValid k c.history
      → length inputs < 2 ^ k
      → c.predicted_tick + length inputs ≡ limit
      → limit < 2 ^ 64
      → Moving c.history c.predicted_tick (length inputs)
      → AllMove inputs
      → world_after inputs c.world ≡ some w
      → replay (length inputs) limit c ≡ some c'
      → c'.world ≡ w
  unfolding replay
  replay_world k [] limit c c' w v fits e small moving moves after d = ground (arith, after, d)
  replay_world k (i ∷ inputs) limit c c' w v fits e small moving moves after d =
      elim (Option-cases (predict c (recorded_input c))) [
        | inl q ↦
            absurd (
              ground (arith, q, d, e, in_bounds-IsValid k c.history (u64 (c.predicted_tick + 1)) v))
        | inr (c1, q) ↦
            (let (stepped, inserted, ticked) = predict_inserts c c1 (recorded_input c) q in
              let odd = recorded_moves (length inputs) c (omega (arith, e, small)) moving in
              let next : c1.predicted_tick ≡ c.predicted_tick + 1 =
                omega (arith, ticked, e, small) in
              let moving1 =
                Moving-insert k (length inputs) c.predicted_tick c.history (frame_of c1) v next
                  (omega (arith, fits)) moving in
              replay_world k inputs limit c1 c' w
                (rw inserted (insert-IsValid k c.history (frame_of c1) v)) (omega (arith, fits))
                (omega (arith, e, next)) small
                (λ t above below.
                  (let (r, found, odd1) =
                      moving1 t (omega (arith, above, next)) (omega (arith, below, next)) in
                    (r, ap (λ h. get h t) inserted ∙ found, odd1)))
                moves.1
                (ground (
                  arith,
                  stepped,
                  step_moves c.world i moves.0,
                  step_moves c.world (recorded_input c) odd,
                  after,
                ))
                (ground
                  (arith, q, d, e, in_bounds-IsValid k c.history (u64 (c.predicted_tick + 1)) v)))
      ]

  -- A client that rolls back catches up with the server: let it have a valid history of more than
  -- three frames, a frame of another hash for the tick of a snapshot, and a frame with a moving
  -- input for each of the next three ticks, and let the server's inputs of these ticks move its
  -- world, which is the snapshot's. Then the rollback does not panic, and the client is three ticks
  -- after the snapshot with the world that the server has then.
  pub rollback_catches_up :
      (k i1 i2 i3 : ℕ) (c : Predictor) (snap : SnapshotHeader) (pos : FixedVec3)
      (local : FrameRecord WorldState ℕ) (w : WorldState)
      → IsValid k c.history
      → 3 < 2 ^ k
      → snap.tick + 3 < 2 ^ 64
      → get c.history snap.tick ≡ some local
      → (local.state_hash == snap.state_hash) ≡ false
      → Moving c.history snap.tick 3
      → AllMove (i1 ∷ i2 ∷ i3 ∷ [])
      → world_after (i1 ∷ i2 ∷ i3 ∷ []) (record { positions = pos ∷ [] }) ≡ some w
      → (c' : Predictor) × (reconcile c snap pos ≡ some c')
        × (c'.predicted_tick ≡ snap.tick + 3)
        × (c'.world ≡ w)
  unfolding reconcile
  rollback_catches_up k i1 i2 i3 c snap pos local w v fits small found differs moving moves after =
      let (c', e, _, ticked, _) = reconcile-Settled k c snap pos local v found differs small in
      let back = record c {
        rollbacks_this_sec = u32 (c.rollbacks_this_sec + 1);
        world = record { positions = pos ∷ [] };
        predicted_tick = snap.tick;
      } in
      (
        c',
        e,
        ticked,
        replay_world k (i1 ∷ i2 ∷ i3 ∷ []) (u64 (snap.tick + 3)) back c' w v fits
            (omega (arith, small)) (omega (arith, small)) moving moves after
            (ground (arith, e, found, differs, in_bounds-IsValid k c.history snap.tick v)),
      )
