-- ===== src/Game/Client/Loop.antt =====
-- bin/client.rs: the loop that waits for the first snapshot, and a round of the loop that plays.
-- What is logged is left out. A panic is `none`; the instants that the calls of a round read are a
-- `ClientClock`.
pub mod Lead
pub mod Ready
pub mod Stalls
pub mod Taken
pub mod Panics
pub mod Heard
pub mod RoundTripTime
pub mod Sync
use riftnet_rust.Base.{
  ℕ, zero, suc, ◌+◌, ◌-◌, ◌*◌, ◌/◌, ◌%◌, ◌^◌, Bool, true, false, not, ◌&&◌, List, [], ◌∷◌, Option,
  none, some, ltb, ◌==◌, if◌then◌else◌, length,
}
use riftnet_rust.Base.Bits.{u64}
use riftnet_rust.Base.Bytes.{◌>>=◌}
use riftnet_rust.Core.{Result, ok, err}
use riftnet_rust.Float.{F32, F32Cast}
use riftnet_rust.Compression.{Lz4}
use riftnet_rust.Encryption.{Aead}
use riftnet_rust.Protocol.Packet.{InputPacket, SnapshotHeader}
use riftnet_rust.Protocol.History
use riftnet_rust.Connection.Table.{SocketAddr}
use riftnet_rust.Connection.Manager.{ConnectionManager, handle_packet, send_to_client, flush_all}
use riftnet_rust.Connection.Manager
use riftnet_rust.Transport.Interpolator.{Snapshot, push_snapshot}
use riftnet_rust.Transport.Transporter.{NetworkReactor, Transporter, poll, send_all}
use riftnet_rust.Transport.Transporter
use riftnet_rust.Game.World.{FixedVec3, WorldState, Hasher, origin}
use riftnet_rust.Game.Ticks.{find_time, put_time, remove_time, times_from, input_packet}
use riftnet_rust.Game.Client.{Predictor, read_snapshot_packet, predict, reconcile, steps_this_loop}
use riftnet_rust.Game.Client.State.{
  Client, smoothed_rtt, start, show, take_sync, take_rtt, take_snapshot, take_packet, target_tick,
  prune, pulse,
}

-- The instant after the poll, those at which packet `i` is handled, with its elapsed nanoseconds,
-- that of the test for a silent server, of the sends of the steps, and of the flush.
pub record ClientClock : Type 0 where
  pub polled : ℕ
  pub received : ℕ → ℕ
  pub nanos : ℕ → ℕ
  pub checked : ℕ
  pub dispatched : ℕ → ℕ
  pub flushed : ℕ
  pub renewed : ℕ

module _ {A F R : Type 0} ⦃f : F32 F⦄ ⦃lz4 : Lz4⦄ ⦃aead : Aead⦄ ⦃addrs : SocketAddr A⦄
    ⦃hasher : Hasher⦄ ⦃net : NetworkReactor A R⦄ where
  -- The packets of a poll, from number `i` on.
  unfoldable pub take_packets :
      Bool → ClientClock → ℕ → List (List ℕ × A) → Client A F R → Option (Client A F R)
  take_packets playing clock i [] c = some c
  take_packets playing clock i ((packet, sender) ∷ rest) c =
      elim (handle_packet c.manager sender packet (clock.received i) (clock.nanos i)) [
        | none ↦ none
        | some (m, reply) ↦
            elim (take_packet playing (record c { manager = m }) (clock.received i) reply) [
              | none ↦ none
              | some c' ↦ take_packets playing clock (suc i) rest c'
            ]
      ]

  -- The flush, with its sends.
  unfoldable pub flush_client : ClientClock → Client A F R → Option (Client A F R)
  flush_client clock c = elim (flush_all c.manager clock.flushed) [
    | none ↦ none
    | some (m, sent) ↦ some (record c { manager = m; transporter = send_all sent c.transporter })
  ]

module _ {A F R : Type 0} ⦃f : F32 F⦄ ⦃lz4 : Lz4⦄ ⦃aead : Aead⦄ ⦃addrs : SocketAddr A⦄
    ⦃hasher : Hasher⦄ ⦃net : NetworkReactor A R⦄ (server_addr : A) where
  -- After a second of silence the client asks again.
  unfoldable pub ask_again : ClientClock → Client A F R → Option (Client A F R)
  ask_again clock c =
      if not c.synced && ltb (10 ^ 9) (clock.checked - c.last_seen_packet_time)
      then (do
        m ←
            send_to_client c.manager server_addr
              (input_packet (record { tick = 0; input_bitmask = 0 })) true false clock.checked
        c' ← flush_client clock (record c { manager = m })
        some (record c' { last_seen_packet_time = clock.renewed }))
      else some c

  -- A round of the loop that waits.
  unfoldable pub sync_round : ClientClock → Client A F R → Option (Client A F R)
  sync_round clock c =
      let (polled, t) = poll {A = A} c.transporter in
      let c1 = record c { transporter = t } in
      elim polled [
        | err e ↦ ask_again clock c1
        | ok [] ↦ ask_again clock c1
        | ok (p ∷ ps) ↦ do
          c2 ←
              take_packets false clock 0 (p ∷ ps)
                (record c1 { last_seen_packet_time = clock.polled })
          ask_again clock c2
      ]

  -- The loop that waits, on fuel: one clock for each round that it may take.
  unfoldable pub sync : List ClientClock → Client A F R → Option (Client A F R)
  sync [] c = some c
  sync (clock ∷ clocks) c = elim c.synced [
    | true ↦ some c
    | false ↦ elim (sync_round clock c) [ none ↦ none | some c' ↦ sync clocks c' ]
  ]

  -- A step of the prediction: the tick is simulated and its input queued.
  unfoldable pub dispatch : ℕ → Client A F R → Option (Client A F R)
  dispatch now c = do
    p ← predict c.predictor 1
    let pkt = input_packet (record { tick = p.predicted_tick; input_bitmask = 1 })
    m ← send_to_client c.manager server_addr pkt false false now
    some (record c {
      predictor = p;
      manager = m;
      input_dispatch_times = put_time p.predicted_tick now c.input_dispatch_times;
    })

  unfoldable pub dispatch_steps : ClientClock → ℕ → Client A F R → Option (Client A F R)
  dispatch_steps clock zero c = some c
  dispatch_steps clock (suc n) c = elim (dispatch (clock.dispatched n) c) [
    | none ↦ none
    | some c' ↦ dispatch_steps clock n c'
  ]

  -- The round after its packets.
  unfoldable pub advance_client :
      ⦃cast : F32Cast F⦄ → ClientClock → Client A F R → Option (Client A F R)
  advance_client clock c =
      let steps = steps_this_loop c.predictor.predicted_tick (target_tick c) in
      do
        c1 ← dispatch_steps clock steps c
        c2 ← flush_client clock (prune c1)
        some (pulse steps c2)

  -- A round of the loop that plays.
  unfoldable pub play_round :
      ⦃cast : F32Cast F⦄ → ClientClock → Client A F R → Option (Client A F R)
  play_round clock c =
      let (polled, t) = poll {A = A} c.transporter in
      let c1 = record c { transporter = t } in
      elim polled [
        | err e ↦ advance_client clock c1
        | ok packets ↦ do c2 ← take_packets true clock 0 packets c1; advance_client clock c2
      ]
