-- ===== src/Game/Client/Loop/Taken.antt =====
-- bin/client.rs: the packets of a round panic on a truncated snapshot alone.
use riftnet_rust.Base.{
  ℕ, zero, suc, ◌+◌, ◌≡◌, ◌&&◌, ◌⊎◌, false, Bool, inl, inr, refl, true, Option, none, some, List,
  [], ◌∷◌, ltb, ◌==◌, arith, Option-cases, Bool-cases,
}
use riftnet_rust.Base.Bits.{u32, u64}
use riftnet_rust.Core.{ok, err, Result}
use riftnet_rust.Float.{F32}
use riftnet_rust.Compression.{Lz4}
use riftnet_rust.Encryption.{Aead}
use riftnet_rust.Protocol.Packet.{SnapshotHeader}
use riftnet_rust.Protocol.History.{get}
use riftnet_rust.Protocol.History.Lookup.{IsRing, in_bounds-IsRing}
use riftnet_rust.Connection.Table.{SocketAddr}
use riftnet_rust.Connection.Manager.{ConnectionManager, handle_packet}
use riftnet_rust.Connection.Manager.Safety.{handle_packet_total}
use riftnet_rust.Connection.Manager.Sendable.{handle_packet-Sendable}
use riftnet_rust.Transport.Transporter.{NetworkReactor}
use riftnet_rust.Game.World.{FixedVec3, Hasher}
use riftnet_rust.Game.World.Inhabited.{Inhabited}
use riftnet_rust.Game.Client.{Predictor, recorded_input, replay, reconcile, read_snapshot_packet}
use riftnet_rust.Game.Client.Loop.{ClientClock, take_packets}
use riftnet_rust.Game.Client.State.{Client, take_rtt, take_snapshot, take_packet}
use riftnet_rust.Game.Client.State.{take_sync}
use riftnet_rust.Game.Client.Loop.Ready.{IsReady, predict_total}

module _ ⦃hasher : Hasher⦄ where
  replay_total :
      (fuel limit : ℕ) (c : Predictor)
      → Inhabited c.world
      → IsRing c.history
      → (c' : Predictor) × (replay fuel limit c ≡ some c') × Inhabited c'.world × IsRing c'.history
  unfolding replay
  replay_total zero limit c there ring = (c, refl, there, ring)
  replay_total (suc fuel) limit c there ring = elim (Bool-cases (ltb c.predicted_tick limit)) [
    | inr done ↦ (c, ground (arith, done), there, ring)
    | inl below ↦
        (let inside = in_bounds-IsRing c.history (u64 (c.predicted_tick + 1)) ring in
          let (c1, e, there1, ring1, _) = predict_total c (recorded_input c) there ring in
          let (c2, e2, there2, ring2) = replay_total fuel limit c1 there1 ring1 in
          (c2, ground (arith, below, inside, e, e2), there2, ring2))
  ]

  reconcile_total :
      (c : Predictor) (snap : SnapshotHeader) (pos : FixedVec3)
      → Inhabited c.world
      → IsRing c.history
      → (c' : Predictor) × (reconcile c snap pos ≡ some c') × Inhabited c'.world × IsRing c'.history
  unfolding reconcile
  reconcile_total c snap pos there ring =
      let inside = in_bounds-IsRing c.history snap.tick ring in
      elim (Option-cases (get c.history snap.tick)) [
        | inl d ↦ (c, rw (reconcile, inside, d) refl, there, ring)
        | inr (local, d) ↦ elim (Bool-cases (local.state_hash == snap.state_hash)) [
          | inl same ↦ (c, rw (reconcile, inside, d, same) refl, there, ring)
          | inr differs ↦
              (let back = record c {
                rollbacks_this_sec = u32 (c.rollbacks_this_sec + 1);
                world = record { positions = pos ∷ [] };
                predicted_tick = snap.tick;
              } in
                let (c', e, there', ring') =
                  replay_total 3 (u64 (snap.tick + 3)) back (pos, [], refl) ring in
                (c', rw (reconcile, inside, d, differs) e, there', ring'))
        ]
      ]

-- A packet that the manager hands over is no truncated snapshot.
abbrev pub legible : Option (List ℕ) → Bool
legible none = true
legible (some app_data) = elim (read_snapshot_packet app_data) [
  | none ↦ false
  | some snapshot ↦ true
]

module _ {A F : Type 0} ⦃f : F32 F⦄ ⦃lz4 : Lz4⦄ ⦃aead : Aead⦄ ⦃addrs : SocketAddr A⦄ where
  -- No packet that the manager hands over, from number `i` of the poll on, is a truncated snapshot.
  abbrev pub all_legible : ClientClock → ℕ → List (List ℕ × A) → ConnectionManager A F → Bool
  all_legible clock i [] m = true
  all_legible clock i ((packet, sender) ∷ rest) m =
      elim (handle_packet m sender packet (clock.received i) (clock.nanos i)) [
        | none ↦ true
        | some (m', reply) ↦ legible reply && all_legible clock (suc i) rest m'
      ]

  -- The same of what a poll takes.
  abbrev pub poll_legible : ClientClock → Result (List (List ℕ × A)) → ConnectionManager A F → Bool
  poll_legible clock (err e) m = true
  poll_legible clock (ok packets) m = all_legible clock 0 packets m

module _ {A F R : Type 0} ⦃f : F32 F⦄ ⦃lz4 : Lz4⦄ ⦃aead : Aead⦄ ⦃addrs : SocketAddr A⦄
    ⦃hasher : Hasher⦄ ⦃net : NetworkReactor A R⦄ where
  take_snapshot_total :
      (c : Client A F R) (now : ℕ) (snap : SnapshotHeader) (pos : FixedVec3)
      → IsReady c
      → (c' : Client A F R) × (take_snapshot c now snap pos ≡ some c')
        × IsReady c'
        × (c'.manager ≡ c.manager)
  unfolding take_snapshot take_rtt
  take_snapshot_total c now snap pos ready =
      let (p, e, there, ring) = reconcile_total c.predictor snap pos ready.inhabited ready.ring in
      elim (Option-cases (take_snapshot c now snap pos)) [
        | inl d ↦ absurd (ground (arith, e, d))
        | inr (c', d) ↦
            (let same : c'.manager ≡ c.manager = ground (arith, e, d) in
              let predicted : c'.predictor ≡ p = ground (arith, e, d) in
              (
                c',
                d,
                record {
                  sendable = rw same ready.sendable;
                  inhabited = rw predicted there;
                  ring = rw predicted ring;
                },
                same,
              ))
      ]

  take_packet_cases :
      (playing : Bool) (c : Client A F R) (now : ℕ) (reply : Option (List ℕ))
      → IsReady c
      → ((c' : Client A F R) × (legible reply ≡ true)
          × (take_packet playing c now reply ≡ some c')
          × IsReady c'
          × (c'.manager ≡ c.manager))
        ⊎ ((legible reply ≡ false) × (take_packet playing c now reply ≡ none))
  unfolding take_packet take_sync
  take_packet_cases playing c now none ready = inl (c, refl, refl, ready, refl)
  take_packet_cases playing c now (some app_data) ready =
      elim (Option-cases (read_snapshot_packet app_data)) [
        | inl d ↦ inr (rw (legible, d) refl, rw (take_packet, d) refl)
        | inr (none, d) ↦ inl (c, rw (legible, d) refl, rw (take_packet, d) refl, ready, refl)
        | inr (some (snap, pos), d) ↦ elim (Bool-cases playing) [
          | inl play ↦
              (let (c', e, ready', same) = take_snapshot_total c now snap pos ready in
                inl (c', rw (legible, d) refl, rw (take_packet, d, play) e, ready', same))
          | inr wait ↦ inl (
            take_sync c snap pos,
            rw (legible, d) refl,
            rw (take_packet, d, wait) refl,
            record { sendable = ready.sendable; inhabited = (pos, [], refl); ring = ready.ring },
            refl,
          )
        ]
      ]

  pub take_packets_cases :
      (playing : Bool) (clock : ClientClock) (i : ℕ) (packets : List (List ℕ × A))
      (c : Client A F R)
      → IsReady c
      → ((c' : Client A F R) × (all_legible clock i packets c.manager ≡ true)
          × (take_packets playing clock i packets c ≡ some c')
          × IsReady c')
        ⊎ ((all_legible clock i packets c.manager ≡ false)
            × (take_packets playing clock i packets c ≡ none))
  unfolding take_packets
  take_packets_cases playing clock i [] c ready = inl (c, refl, refl, ready)
  take_packets_cases playing clock i ((packet, sender) ∷ rest) c ready =
      let now = clock.received i in
      let (m, reply, e) = handle_packet_total c.manager sender packet now (clock.nanos i) in
      let c1 = record c { manager = m } in
      let ready1 : IsReady c1 = record {
        sendable =
            handle_packet-Sendable c.manager m sender packet now (clock.nanos i) reply
              ready.sendable e;
        inhabited = ready.inhabited;
        ring = ready.ring;
      } in
      elim (take_packet_cases playing c1 now reply ready1) [
        | inr (l, d) ↦ inr (rw (all_legible, e, l) refl, rw (take_packets, e, d) refl)
        | inl (c2, l, d, ready2, same) ↦
            elim (take_packets_cases playing clock (suc i) rest c2 ready2) [
              | inr (l', d') ↦ inr (rw (all_legible, e, l, ← same) l', rw (take_packets, e, d) d')
              | inl (c3, l', d', ready3) ↦
                  inl (c3, rw (all_legible, e, l, ← same) l', rw (take_packets, e, d) d', ready3)
            ]
      ]
