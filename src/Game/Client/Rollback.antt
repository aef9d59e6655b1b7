-- ===== src/Game/Client/Rollback.antt =====
-- bin/client.rs: where a rollback ends.
use riftnet_rust.Base.{
  ℕ, zero, suc, ◌+◌, ◌^◌, ◌<◌, ◌≡◌, refl, ◌∙◌, true, false, List, [], ◌∷◌, some, ltb, ◌==◌, length,
  arith, inl, inr, Bool-cases, bit_and,
}
use riftnet_rust.Base.Bits.{u32, u64}
use riftnet_rust.Protocol.Packet.{SnapshotHeader}
use riftnet_rust.Protocol.History.{in_bounds, FrameRecord, insert, get}
use riftnet_rust.Protocol.History.Lookup.{in_bounds-IsValid, IsValid, insert-IsValid, get-insert}
use riftnet_rust.Game.World.{FixedVec3, WorldState, Hasher, calculate_hash, step_physics}
use riftnet_rust.Game.Client.{Predictor, predict, recorded_input, replay, reconcile}

step_first :
    (ps : List FixedVec3) (input : ℕ)
    → length ps ≡ 1
    → (w' : WorldState) × (step_physics (record { positions = ps }) input ≡ some w')
      × (length w'.positions ≡ 1)
unfolding step_physics
step_first [] input e = absurd (omega arith)
step_first (p ∷ ps) input e = elim (Bool-cases (bit_and input 1 == 0)) [
  | inl still ↦ (record { positions = p ∷ ps }, rw (step_physics, still) refl, e)
  | inr moves ↦ (
    record { positions = record p { x = u32 (p.x + 10) } ∷ ps },
    rw (step_physics, moves) refl,
    e,
  )
]

module _ ⦃hasher : Hasher⦄ where
  -- The frame that a prediction records.
  abbrev pub frame_of : Predictor → FrameRecord WorldState ℕ
  frame_of c = record {
    tick = c.predicted_tick;
    state = c.world;
    state_hash = calculate_hash c.world;
    input = 1;
  }

  -- A client with one position and a valid history, whose newest frame is its world.
  pub record Settled (k : ℕ) (c : Predictor) : Type 0 where
    pub single : length c.world.positions ≡ 1
    pub valid : IsValid k c.history
    pub newest : get c.history c.predicted_tick ≡ some (frame_of c)

  -- A prediction of a client with one position does not panic and is its newest frame.
  pub predict-Settled :
      (k : ℕ) (c : Predictor) (input : ℕ)
      → length c.world.positions ≡ 1
      → IsValid k c.history
      → (c' : Predictor) × (predict c input ≡ some c')
        × Settled k c'
        × (c'.predicted_tick ≡ u64 (c.predicted_tick + 1))
        × (c'.rollbacks_this_sec ≡ c.rollbacks_this_sec)
  unfolding predict
  predict-Settled k c input one v =
      let (w, stepped, one') = step_first c.world.positions input one in
      let r : FrameRecord WorldState ℕ = record {
        tick = u64 (c.predicted_tick + 1);
        state = w;
        state_hash = calculate_hash w;
        input = 1;
      } in
      (
        record c {
          world = w;
          predicted_tick = u64 (c.predicted_tick + 1);
          history = insert c.history r;
        },
        rw (predict, stepped, in_bounds-IsValid k c.history (u64 (c.predicted_tick + 1)) v) refl,
        record {
          single = one';
          valid = insert-IsValid k c.history r v;
          newest = ground (arith, get-insert k c.history r (u64 (c.predicted_tick + 1)) v);
        },
        refl,
        refl,
      )

  -- With fuel for the ticks that are missing, the replay reaches its limit.
  replay-Settled :
      (n k : ℕ) (c : Predictor) (limit : ℕ)
      → length c.world.positions ≡ 1
      → IsValid k c.history
      → c.predicted_tick + suc n ≡ limit
      → limit < 2 ^ 64
      → (c' : Predictor) × (replay (suc n) limit c ≡ some c')
        × Settled k c'
        × (c'.predicted_tick ≡ limit)
        × (c'.rollbacks_this_sec ≡ c.rollbacks_this_sec)
  unfolding replay
  replay-Settled zero k c limit one v e small =
      let (c1, d, v1, t1, r1) = predict-Settled k c (recorded_input c) one v in
      (
        c1,
        ground (arith, d, in_bounds-IsValid k c.history (u64 (c.predicted_tick + 1)) v),
        v1,
        omega (arith, t1, e, small),
        r1,
      )
  replay-Settled (suc n) k c limit one v e small =
      let (c1, d, v1, t1, r1) = predict-Settled k c (recorded_input c) one v in
      let (c2, d2, v2, t2, r2) =
        replay-Settled n k c1 limit v1.single v1.valid (omega (arith, t1, e, small)) small in
      (
        c2,
        first n c c1 c2 limit (omega (arith, e))
            (in_bounds-IsValid k c.history (u64 (c.predicted_tick + 1)) v) d d2,
        v2,
        t2,
        r2 ∙ r1,
      )
    where
      first :
          (n : ℕ) (c c1 c2 : Predictor) (limit : ℕ)
          → c.predicted_tick < limit
          → in_bounds c.history (u64 (c.predicted_tick + 1)) ≡ true
          → predict c (recorded_input c) ≡ some c1
          → replay (suc n) limit c1 ≡ some c2
          → replay (suc (suc n)) limit c ≡ some c2
      first n c c1 c2 limit below inside d d2 =
          let test : ltb c.predicted_tick limit ≡ true = ground arith in rw (test, inside, d) d2

  -- A client with a valid history that has a frame for the tick of a snapshot, with another hash,
  -- rolls back without a panic: it counts the rollback, and ends three ticks after the snapshot with
  -- one position, its newest frame being its world.
  pub reconcile-Settled :
      (k : ℕ) (c : Predictor) (snap : SnapshotHeader) (pos : FixedVec3)
      (local : FrameRecord WorldState ℕ)
      → IsValid k c.history
      → get c.history snap.tick ≡ some local
      → (local.state_hash == snap.state_hash) ≡ false
      → snap.tick + 3 < 2 ^ 64
      → (c' : Predictor) × (reconcile c snap pos ≡ some c')
        × Settled k c'
        × (c'.predicted_tick ≡ snap.tick + 3)
        × (c'.rollbacks_this_sec ≡ u32 (c.rollbacks_this_sec + 1))
  unfolding reconcile
  reconcile-Settled k c snap pos local v found differs small =
      let back = record c {
        rollbacks_this_sec = u32 (c.rollbacks_this_sec + 1);
        world = record { positions = pos ∷ [] };
        predicted_tick = snap.tick;
      } in
      let (c', d, settled, t, r) =
        replay-Settled 2 k back (u64 (snap.tick + 3)) refl v (omega (arith, small))
          (omega (arith, small)) in
      (
        c',
        rw (reconcile, in_bounds-IsValid k c.history snap.tick v, found, differs) d,
        settled,
        omega (arith, t, small),
        r,
      )
