-- ===== src/Game/Client.antt =====
-- bin/server.rs and bin/client.rs: the snapshot packet of the server, and what the client does with
-- it: prediction, and rollback over the history of its frames. A panic is `none`.
pub mod Snapshots
pub mod Rollback
pub mod State
pub mod Loop
pub mod Agreement
pub mod CatchUp
use riftnet_rust.Base.{
  not, ℕ, zero, suc, ◌+◌, ◌%◌, ◌^◌, Bool, List, [], ◌∷◌, ◌++◌, Option, none, some, ltb, ◌==◌,
  if◌then◌else◌, take, drop, length, leb,
}
use riftnet_rust.Base.Bits.{u32, u64}
use riftnet_rust.Base.Bytes.{◌>>=◌, to_le_bytes, read_le}
use riftnet_rust.Protocol.Packet.{
  PacketType, packet_code, GeneralPacketHeader, SnapshotHeader, as_bytes, read_from_prefix, size_of,
  general_wire, snapshot_wire,
}
use riftnet_rust.Protocol.History.{in_bounds, FrameRecord, HistoryBuffer, insert, get}
use riftnet_rust.Game.World.{FixedVec3, WorldState, Hasher, calculate_hash, step_physics}

pub position_bytes : List FixedVec3 → List ℕ
position_bytes [] = []
position_bytes (p ∷ ps) =
    to_le_bytes 4 p.x ++ (to_le_bytes 4 p.y ++ (to_le_bytes 4 p.z ++ position_bytes ps))

-- What the server queues for a client.
unfoldable pub snapshot_packet : SnapshotHeader → WorldState → List ℕ
unfolding position_bytes
snapshot_packet hdr world =
    let gen_hdr : GeneralPacketHeader = record { packet_type = packet_code PacketType.snapshot } in
    as_bytes gen_hdr ++ (as_bytes hdr ++ position_bytes world.positions)

-- The three words of the first position; the slices panic on fewer bytes.
unfoldable pub read_position : List ℕ → Option FixedVec3
unfolding read_le
read_position bs = do
  (x, rest) ← read_le 4 bs
  (y, rest') ← read_le 4 rest
  (z, rest'') ← read_le 4 rest'
  some (record { x = x; y = y; z = z })

-- A packet that the manager hands over: the snapshot in it, if it is one.
unfoldable pub read_snapshot_packet : List ℕ → Option (Option (SnapshotHeader × FixedVec3))
read_snapshot_packet app_data = elim (read_from_prefix ⦃w = general_wire⦄ app_data) [
  | none ↦ some none
  | some gen_hdr ↦
      if gen_hdr.packet_type == packet_code PacketType.snapshot
      then (let body = drop (size_of GeneralPacketHeader) app_data in
          do
            snap ← read_from_prefix ⦃w = snapshot_wire⦄ body
            pos ← read_position (drop (size_of SnapshotHeader) body)
            some (some (snap, pos)))
      else some none
]

-- The part of the client's state that prediction works on.
pub record Predictor : Type 0 where
  pub world : WorldState
  pub history : HistoryBuffer WorldState ℕ
  pub predicted_tick : ℕ
  pub rollbacks_this_sec : ℕ

module _ ⦃hasher : Hasher⦄ where
  -- The next tick with an input for the world; the record says that the input was 1.
  unfoldable pub predict : Predictor → ℕ → Option Predictor
  predict c input = do
    world ← step_physics c.world input
    let c' = record c {
      world = world;
      predicted_tick = u64 (c.predicted_tick + 1);
      history = insert c.history (record {
        tick = u64 (c.predicted_tick + 1);
        state = world;
        state_hash = calculate_hash world;
        input = 1;
      });
    }
    (if in_bounds c.history (u64 (c.predicted_tick + 1)) then some c' else none)

  -- The input that was recorded for the tick that comes next.
  unfoldable pub recorded_input : Predictor → ℕ
  recorded_input c = elim (get c.history (u64 (c.predicted_tick + 1))) [
    | none ↦ 0
    | some r ↦ r.input
  ]

  -- The `while` of a rollback, on fuel.
  unfoldable pub replay : ℕ → ℕ → Predictor → Option Predictor
  replay zero limit c = some c
  replay (suc fuel) limit c =
      if ltb c.predicted_tick limit
      then (if in_bounds c.history (u64 (c.predicted_tick + 1))
          then (do c' ← predict c (recorded_input c); replay fuel limit c')
          else none)
      else some c

  -- A snapshot whose hash differs from that of the client's own frame.
  unfoldable pub reconcile : Predictor → SnapshotHeader → FixedVec3 → Option Predictor
  reconcile c snap pos =
      if not (in_bounds c.history snap.tick) then none else elim (get c.history snap.tick) [
        | none ↦ some c
        | some local ↦
            if local.state_hash == snap.state_hash
            then some c
            else replay 3 (u64 (snap.tick + 3)) (record c {
              rollbacks_this_sec = u32 (c.rollbacks_this_sec + 1);
              world = record { positions = pos ∷ [] };
              predicted_tick = snap.tick;
            })
      ]

-- How many ticks the client predicts in one round of its loop.
unfoldable pub steps_this_loop : ℕ → ℕ → ℕ
steps_this_loop predicted_tick target_tick =
    if ltb predicted_tick target_tick
    then 2
    else if ltb (u64 (target_tick + 2)) predicted_tick
    then 0
    else 1
