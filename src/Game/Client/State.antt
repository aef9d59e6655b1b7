-- ===== src/Game/Client/State.antt =====
-- bin/client.rs: the client's state, and what its loops do to it without the network.
-- What is logged is left out. A panic is `none`.
use riftnet_rust.Base.{
  ℕ, ◌+◌, ◌-◌, ◌/◌, ◌%◌, ◌^◌, Bool, true, false, ◌&&◌, List, [], ◌∷◌, Option, none, some, ltb, ◌==◌,
  if◌then◌else◌, length,
}
use riftnet_rust.Base.Bits.{u64}
use riftnet_rust.Float.{F32, F32Cast}
use riftnet_rust.Protocol.Packet.{SnapshotHeader}
use riftnet_rust.Protocol.History
use riftnet_rust.Connection.Manager.{ConnectionManager}
use riftnet_rust.Transport.Interpolator.{Snapshot, push_snapshot}
use riftnet_rust.Transport.Transporter.{NetworkReactor, Transporter, poll, send_all}
use riftnet_rust.Transport.Transporter
use riftnet_rust.Game.World.{FixedVec3, WorldState, Hasher, origin}
use riftnet_rust.Game.Ticks.{find_time, remove_time, times_from}
use riftnet_rust.Game.Client.{Predictor, read_snapshot_packet, reconcile}

pub record Client (A F R : Type 0) : Type 0 where
  pub transporter : Transporter WorldState R
  pub manager : ConnectionManager A F
  pub predictor : Predictor
  pub input_dispatch_times : List (ℕ × ℕ)
  pub last_server_tick : ℕ
  pub current_rtt_ms : ℕ
  pub last_seen_packet_time : ℕ
  pub last_ema : ℕ
  pub synced : Bool

-- The exponential average of the round-trip time, for the log: `0.1` and `0.9` of a millisecond.
unfoldable pub smoothed_rtt : (F : Type 0) ⦃f : F32 F⦄ ⦃cast : F32Cast F⦄ → ℕ → ℕ → ℕ
smoothed_rtt F ⦃f⦄ ⦃cast⦄ rtt ema =
    cast.as_u128
      (f.add (f.mul (cast.of_u128 rtt) (f.lit 1 10)) (f.mul (cast.of_u128 ema) (f.lit 9 10)))

module _ {A F R : Type 0} where
  -- The state before the loops, at the instant of the start.
  unfoldable pub start : R → ℕ → Option (Client A F R)
  start reactor now = elim (History.new {T = WorldState} {I = ℕ} 128) [
    | none ↦ none
    | some history ↦ some (record {
      transporter = Transporter.new reactor 128;
      manager = record { connections = [] };
      predictor = record {
        world = origin;
        history = history;
        predicted_tick = 0;
        rollbacks_this_sec = 0;
      };
      input_dispatch_times = [];
      last_server_tick = 0;
      current_rtt_ms = 0;
      last_seen_packet_time = now;
      last_ema = 0;
      synced = false;
    })
  ]

  -- A snapshot in the buffer for the renderer.
  abbrev pub show : Client A F R → ℕ → WorldState → Transporter WorldState R
  show c tick world =
      let t = c.transporter in
      let snap : Snapshot WorldState = record { tick = tick; state = world } in
      record t { interpolator = push_snapshot t.interpolator snap }

  -- The first snapshots: the client takes the server's world, three ticks ahead.
  unfoldable pub take_sync : Client A F R → SnapshotHeader → FixedVec3 → Client A F R
  take_sync c snap pos =
      let p = c.predictor in
      let world : WorldState = record { positions = pos ∷ [] } in
      record c {
        predictor = record p { world = world; predicted_tick = u64 (snap.tick + 3) };
        last_server_tick = snap.tick;
        transporter = show c snap.tick world;
        synced = true;
      }

  -- The answer to an input that the client sent, and its round-trip time.
  unfoldable pub take_rtt : Client A F R → ℕ → SnapshotHeader → Client A F R
  take_rtt c now snap = elim (find_time snap.last_input_tick c.input_dispatch_times) [
    | none ↦ record c { last_server_tick = snap.tick }
    | some sent_time ↦ record c {
      last_server_tick = snap.tick;
      input_dispatch_times = remove_time snap.last_input_tick c.input_dispatch_times;
      current_rtt_ms = (now - sent_time) / 10 ^ 6;
    }
  ]

  module _ ⦃hasher : Hasher⦄ where
    unfoldable pub take_snapshot :
        Client A F R → ℕ → SnapshotHeader → FixedVec3 → Option (Client A F R)
    take_snapshot c now snap pos = elim (reconcile c.predictor snap pos) [
      | none ↦ none
      | some p ↦ some (record (take_rtt c now snap) {
        transporter = show c snap.tick (record { positions = pos ∷ [] });
        predictor = p;
      })
    ]

    -- What the manager hands over, before and after the first snapshot.
    unfoldable pub take_packet : Bool → Client A F R → ℕ → Option (List ℕ) → Option (Client A F R)
    take_packet playing c now none = some c
    take_packet playing c now (some app_data) = elim (read_snapshot_packet app_data) [
      | none ↦ none
      | some none ↦ some c
      | some (some (snap, pos)) ↦
          if playing then take_snapshot c now snap pos else some (take_sync c snap pos)
    ]

-- `last_server_tick + ping_ticks + 3`
unfoldable pub target_tick : {A F R : Type 0} → Client A F R → ℕ
target_tick c = u64 (u64 (c.last_server_tick + u64 (c.current_rtt_ms / 2) / 16) + 3)

-- Old entries go when there are more than 128.
unfoldable pub prune : {A F R : Type 0} → Client A F R → Client A F R
prune c =
    if ltb 128 (length c.input_dispatch_times)
    then record c { input_dispatch_times = times_from c.last_server_tick c.input_dispatch_times }
    else c

-- The pulse of the log, which ends the count of the rollbacks.
unfoldable pub pulse :
    {A F R : Type 0} ⦃f : F32 F⦄ ⦃cast : F32Cast F⦄ → ℕ → Client A F R → Client A F R
pulse {F = F} steps c =
    if ltb 0 steps && (c.predictor.predicted_tick % 60 == 0)
    then (let p = c.predictor in
        record c {
          last_ema =
              if ltb 0 c.current_rtt_ms
              then smoothed_rtt F c.current_rtt_ms c.last_ema
              else c.last_ema;
          predictor = record p { rollbacks_this_sec = 0 };
        })
    else c
