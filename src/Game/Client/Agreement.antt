-- ===== src/Game/Client/Agreement.antt =====
-- bin/client.rs and bin/server.rs: the prediction of the client and the simulation of the server.
use riftnet_rust.Base.{
  ℕ, zero, suc, ◌+◌, ◌%◌, ◌^◌, ◌<◌, ◌≤◌, ◌≡◌, inl, inr, refl, ◌∙◌, ap, List, [], ◌∷◌, Option, none,
  some, length, arith, Option-cases, eq→==,
}
use riftnet_rust.Base.Bits.{bit_and-one}
use riftnet_rust.Protocol.Packet.{SnapshotHeader}
use riftnet_rust.Protocol.History.{FrameRecord, insert, get}
use riftnet_rust.Protocol.History.Lookup.{
  in_bounds-IsValid, IsValid, insert_all, AllRecords, get-insert_all,
}
use riftnet_rust.Game.World.{FixedVec3, WorldState, Hasher, calculate_hash, step_physics}
use riftnet_rust.Game.Client.{Predictor, predict, reconcile}
use riftnet_rust.Game.Client.Rollback.{frame_of, Settled, predict-Settled}

-- The server's world after ticks with the inputs given.
abbrev pub world_after : List ℕ → WorldState → Option WorldState
world_after [] w = some w
world_after (i ∷ inputs) w = elim (step_physics w i) [
  | none ↦ none
  | some w' ↦ world_after inputs w'
]

-- Every input has its lowest bit set.
abbrev pub AllMove : List ℕ → Type 0
AllMove [] = Unit
AllMove (i ∷ inputs) = (i % 2 ≡ 1) × AllMove inputs

pub step_moves : (w : WorldState) (i : ℕ) → i % 2 ≡ 1 → step_physics w i ≡ step_physics w 1
unfolding step_physics
step_moves w i odd = ground (arith, bit_and-one i, bit_and-one 1)

module _ ⦃hasher : Hasher⦄ where
  -- The client's steps of prediction.
  abbrev pub predict_many : ℕ → Predictor → Option Predictor
  predict_many zero c = some c
  predict_many (suc n) c = elim (predict c 1) [ none ↦ none | some c' ↦ predict_many n c' ]

  predict_effect :
      (c c' : Predictor)
      → predict c 1 ≡ some c'
      → (step_physics c.world 1 ≡ some c'.world) × (c'.history ≡ insert c.history (frame_of c'))
  unfolding predict
  predict_effect c c' e = elim (Option-cases (step_physics c.world 1)) [
    | inl d ↦ absurd (ground (arith, d, e))
    | inr (w, d) ↦ (ground (arith, d, e), ground (arith, d, e))
  ]

  -- Steps of prediction: where they end, and the frames that they record.
  record Predicted (k n : ℕ) (c c' : Predictor) : Type 0 where
    settled : Settled k c'
    ticked : c'.predicted_tick ≡ c.predicted_tick + n
    records : List (FrameRecord WorldState ℕ)
    recorded : c'.history ≡ insert_all c.history records
    later : AllRecords (λ q. (c.predicted_tick < q.tick) × (q.tick ≤ c.predicted_tick + n)) records

  AllRecords-map :
      {P Q : FrameRecord WorldState ℕ → Type 0} (rs : List (FrameRecord WorldState ℕ))
      → ((q : FrameRecord WorldState ℕ) → P q → Q q)
      → AllRecords P rs
      → AllRecords Q rs
  AllRecords-map [] g ps = tt
  AllRecords-map (r ∷ rs) g ps = (g r ps.0, AllRecords-map rs g ps.1)

  predict_many-Predicted :
      (k n : ℕ) (c : Predictor)
      → Settled k c
      → c.predicted_tick + n < 2 ^ 64
      → (c' : Predictor) × (predict_many n c ≡ some c') × Predicted k n c c'
  predict_many-Predicted k zero c s small = (
    c,
    refl,
    record { settled = s; ticked = omega arith; records = []; recorded = refl; later = tt },
  )
  predict_many-Predicted k (suc n) c s small =
      let (c1, e, s1, t1, _) = predict-Settled k c 1 s.single s.valid in
      let (stepped, inserted) = predict_effect c c1 e in
      let (c2, e2, p) = predict_many-Predicted k n c1 s1 (omega (arith, t1, small)) in
      (
        c2,
        rw (predict_many, e) e2,
        record {
          settled = p.settled;
          ticked = omega (arith, p.ticked, t1, small);
          records = frame_of c1 ∷ p.records;
          recorded = p.recorded ∙ ap (λ h. insert_all h p.records) inserted;
          later = (
            (omega (arith, t1, small), omega (arith, t1, small)),
            AllRecords-map p.records
                (λ q b. (omega (arith, b.0, t1, small), omega (arith, b.1, t1, small))) p.later,
          );
        },
      )

  -- Where every input of the server moves the world, the client's steps are the server's.
  same_worlds :
      (inputs : List ℕ) (c c' : Predictor) (w : WorldState)
      → AllMove inputs
      → world_after inputs c.world ≡ some w
      → predict_many (length inputs) c ≡ some c'
      → c'.world ≡ w
  same_worlds [] c c' w moves e d = ground (arith, e, d)
  same_worlds (i ∷ inputs) c c' w moves e d = elim (Option-cases (predict c 1)) [
    | inl q ↦ absurd (ground (arith, q, d))
    | inr (c1, q) ↦
        (let (stepped, _) = predict_effect c c1 q in
          same_worlds inputs c1 c' w moves.1
            (ground (arith, stepped, step_moves c.world i moves.0, e)) (ground (arith, q, d)))
  ]

  same_hash :
      (k : ℕ) (c : Predictor) (frame : Predictor) (snap : SnapshotHeader) (pos : FixedVec3)
      → IsValid k c.history
      → get c.history snap.tick ≡ some (frame_of frame)
      → calculate_hash frame.world ≡ snap.state_hash
      → reconcile c snap pos ≡ some c
  unfolding reconcile
  same_hash k c frame snap pos v found same =
      rw
        (
          reconcile,
          in_bounds-IsValid k c.history snap.tick v,
          found,
          eq→== (calculate_hash frame.world) snap.state_hash same,
        )
        refl

  -- A client that has one position and a history of 2^k frames predicts without a rollback what the
  -- server simulates: let the client predict from the server's world at a tick, and let every input
  -- of the server move the world in the ticks that follow. The client's steps do not panic, and the
  -- snapshot of the last of these ticks changes nothing when the client is less than 2^k ticks
  -- further by then.
  pub no_rollback :
      (k n i : ℕ) (inputs : List ℕ) (c : Predictor) (w : WorldState) (last_input_tick : ℕ)
      (pos : FixedVec3)
      → length c.world.positions ≡ 1
      → IsValid k c.history
      → c.predicted_tick + suc (length inputs) + n < 2 ^ 64
      → n < 2 ^ k
      → AllMove (i ∷ inputs)
      → world_after (i ∷ inputs) c.world ≡ some w
      → (c1 : Predictor) × (c2 : Predictor) × (predict_many (suc (length inputs)) c ≡ some c1)
        × (predict_many n c1 ≡ some c2)
        × (c1.predicted_tick ≡ c.predicted_tick + suc (length inputs))
        × (reconcile c2
              (record {
                tick = c1.predicted_tick;
                state_hash = calculate_hash w;
                last_input_tick = last_input_tick;
              })
              pos
            ≡ some c2)
  no_rollback k n i inputs c w last_input_tick pos one v small within moves e =
      let (c0, e0, s0, t0, _) = predict-Settled k c 1 one v in
      let (c1, e1, p1) =
        predict_many-Predicted k (length inputs) c0 s0 (omega (arith, t0, small)) in
      let (c2, e2, p2) =
        predict_many-Predicted k n c1 p1.settled (omega (arith, t0, small, p1.ticked)) in
      let all : predict_many (suc (length inputs)) c ≡ some c1 = rw (predict_many, e0) e1 in
      let kept =
        get-insert_all k c1.history (frame_of c1) p2.records p1.settled.valid p1.settled.newest
          (AllRecords-map p2.records (λ q b. (b.0, omega (arith, b.1, within))) p2.later) in
      (
        c1,
        c2,
        all,
        e2,
        omega (arith, t0, small, p1.ticked),
        same_hash k c2 c1 _ pos p2.settled.valid
            (ap (λ h. get h c1.predicted_tick) p2.recorded ∙ kept)
            (ap calculate_hash (same_worlds (i ∷ inputs) c c1 w moves e all)),
      )
