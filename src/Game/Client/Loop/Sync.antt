-- ===== src/Game/Client/Loop/Sync.antt =====
-- bin/client.rs: what the client knows after its first snapshot.
use riftnet_rust.Base.{
  refl, if◌then◌else◌, ℕ, suc, ◌+◌, ◌-◌, ◌^◌, ◌≡◌, inl, inr, true, false, not, ◌&&◌, Option, none,
  some, List, [], ◌∷◌, ltb, arith, Option-cases, Bool-cases,
}
use riftnet_rust.Base.Bits.{u64}
use riftnet_rust.Core.{Result-cases}
use riftnet_rust.Float.{F32}
use riftnet_rust.Compression.{Lz4}
use riftnet_rust.Encryption.{Aead}
use riftnet_rust.Protocol.Packet.{SnapshotHeader}
use riftnet_rust.Connection.Table.{SocketAddr}
use riftnet_rust.Connection.Manager.{handle_packet, send_to_client, flush_all}
use riftnet_rust.Transport.Transporter.{NetworkReactor, poll}
use riftnet_rust.Game.World.{FixedVec3, Hasher}
use riftnet_rust.Game.Ticks.{input_packet}
use riftnet_rust.Game.Client.{read_snapshot_packet}
use riftnet_rust.Game.Client.Loop.{
  ClientClock, take_packets, flush_client, ask_again, sync_round, sync,
}
use riftnet_rust.Game.Client.State.{Client, take_sync, take_packet}
use riftnet_rust.Game.Client.Loop.Heard.{told, newest_of, newest_polled}

module _ {A F R : Type 0} where
  -- With no snapshot the client waits; with one it has taken its tick and position, and is three
  -- ticks ahead of it.
  abbrev pub Synced : Option (SnapshotHeader × FixedVec3) → Client A F R → Type 0
  Synced none c = c.synced ≡ false
  Synced (some (snap, pos)) c =
      (c.synced ≡ true)
      × (c.last_server_tick ≡ snap.tick)
      × (c.predictor.predicted_tick ≡ u64 (snap.tick + 3))
      × (c.predictor.world.positions ≡ pos ∷ [])

  -- What the other steps leave.
  record Alike (c c' : Client A F R) : Type 0 where
    same_synced : c'.synced ≡ c.synced
    same_predictor : c'.predictor ≡ c.predictor
    same_server : c'.last_server_tick ≡ c.last_server_tick

  Alike-Synced :
      (newest : Option (SnapshotHeader × FixedVec3)) (c c' : Client A F R)
      → Alike c c'
      → Synced newest c
      → Synced newest c'
  Alike-Synced none c c' a s = ground (arith, a, s)
  Alike-Synced (some (snap, pos)) c c' a s = ground (arith, a, s)

  take_packet_manager :
      ⦃hasher : Hasher⦄ (c c' : Client A F R) (now : ℕ) (reply : Option (List ℕ))
      → take_packet false c now reply ≡ some c'
      → c'.manager ≡ c.manager
  unfolding take_packet take_sync
  take_packet_manager c c' now none e = ground (arith, e)
  take_packet_manager c c' now (some app_data) e =
      elim (Option-cases (read_snapshot_packet app_data)) [
        | inl d ↦ absurd (ground (arith, d, e))
        | inr (none, d) ↦ ground (arith, d, e)
        | inr (some (snap, pos), d) ↦ ground (arith, d, e)
      ]

  take_packet-Synced :
      ⦃hasher : Hasher⦄ (newest : Option (SnapshotHeader × FixedVec3)) (c c' : Client A F R)
      (now : ℕ) (reply : Option (List ℕ))
      → take_packet false c now reply ≡ some c'
      → Synced newest c
      → Synced (told reply newest) c'
  unfolding take_packet take_sync
  take_packet-Synced newest c c' now none e s = Alike-Synced newest c c' (ground (arith, e)) s
  take_packet-Synced newest c c' now (some app_data) e s =
      elim (Option-cases (read_snapshot_packet app_data)) [
        | inl d ↦ absurd (ground (arith, d, e))
        | inr (none, d) ↦ rw (told, d) (Alike-Synced newest c c' (ground (arith, d, e)) s)
        | inr (some (snap, pos), d) ↦ rw (told, d) (ground (arith, d, e))
      ]

module _ {A F R : Type 0} ⦃f : F32 F⦄ ⦃lz4 : Lz4⦄ ⦃aead : Aead⦄ ⦃addrs : SocketAddr A⦄
    ⦃hasher : Hasher⦄ ⦃net : NetworkReactor A R⦄ where
  take_packets-Synced :
      (clock : ClientClock) (i : ℕ) (packets : List (List ℕ × A))
      (newest : Option (SnapshotHeader × FixedVec3)) (c c' : Client A F R)
      → take_packets false clock i packets c ≡ some c'
      → Synced newest c
      → Synced (newest_of clock i packets c.manager newest) c'
  unfolding take_packets
  take_packets-Synced clock i [] newest c c' e s = Alike-Synced newest c c' (ground (arith, e)) s
  take_packets-Synced clock i ((packet, sender) ∷ rest) newest c c' e s =
      elim (Option-cases
        (handle_packet c.manager sender packet (clock.received i) (clock.nanos i))) [
          | inl d ↦ absurd (ground (arith, d, e))
          | inr ((m, reply), d) ↦
              (let c0 = record c { manager = m } in
                elim (Option-cases (take_packet false c0 (clock.received i) reply)) [
                  | inl d' ↦ absurd (ground (arith, d, d', e))
                  | inr (c1, d') ↦
                      (let s0 : Synced newest c0 =
                          Alike-Synced newest c c0
                            (record {
                              same_synced = refl;
                              same_predictor = refl;
                              same_server = refl;
                            })
                            s in
                        let s1 = take_packet-Synced newest c0 c1 (clock.received i) reply d' s0 in
                        let same : c1.manager ≡ m =
                          take_packet_manager c0 c1 (clock.received i) reply d' in
                        rw (newest_of, d, ← same)
                          (take_packets-Synced clock (suc i) rest (told reply newest) c1 c'
                            (ground (arith, d, d', e)) s1))
                ])
        ]

  flush_client-Alike :
      (clock : ClientClock) (c c' : Client A F R) → flush_client clock c ≡ some c' → Alike c c'
  unfolding flush_client
  flush_client-Alike clock c c' e = elim (Option-cases (flush_all c.manager clock.flushed)) [
    | inl d ↦ absurd (ground (arith, d, e))
    | inr ((m, sent), d) ↦ ground (arith, d, e)
  ]

  module _ (server_addr : A) where
    ask_again-Alike :
        (clock : ClientClock) (c c' : Client A F R)
        → ask_again server_addr clock c ≡ some c'
        → Alike c c'
    unfolding ask_again
    ask_again-Alike clock c c' e =
        let asks = not c.synced && ltb (10 ^ 9) (clock.checked - c.last_seen_packet_time) in
        elim (Bool-cases asks) [
          | inr quiet ↦ ground (arith, quiet, e)
          | inl loud ↦
              elim (Option-cases (
                send_to_client c.manager server_addr
                  (input_packet (record { tick = 0; input_bitmask = 0 })) true false
                  clock.checked)) [
                    | inl d ↦ absurd (ground (arith, loud, d, e))
                    | inr (m, d) ↦
                        elim (Option-cases (flush_client clock (record c { manager = m }))) [
                          | inl d' ↦ absurd (ground (arith, loud, d, d', e))
                          | inr (c1, d') ↦ ground (
                            arith,
                            loud,
                            d,
                            d',
                            e,
                            flush_client-Alike clock (record c { manager = m }) c1 d',
                          )
                        ]
                  ]
        ]

    sync_round-Synced :
        (clock : ClientClock) (newest : Option (SnapshotHeader × FixedVec3)) (c c' : Client A F R)
        → sync_round server_addr clock c ≡ some c'
        → Synced newest c
        → Synced (newest_polled clock (poll {A = A} c.transporter).0 c.manager newest) c'
    unfolding sync_round
    sync_round-Synced clock newest c c' e s =
        let c1 = record c { transporter = (poll {A = A} c.transporter).1 } in
        let unheard : Alike c c1 = record {
          same_synced = refl;
          same_predictor = refl;
          same_server = refl;
        } in
        let s1 = Alike-Synced newest c c1 unheard s in
        elim (Result-cases (poll {A = A} c.transporter).0) [
          | inr (fault, d) ↦
              rw d
                (Alike-Synced newest c1 c' (ask_again-Alike clock c1 c' (ground (arith, d, e))) s1)
          | inl ([], d) ↦
              rw d
                (Alike-Synced newest c1 c' (ask_again-Alike clock c1 c' (ground (arith, d, e))) s1)
          | inl (p ∷ ps, d) ↦
              (let c2 = record c1 { last_seen_packet_time = clock.polled } in
                let s2 : Synced newest c2 =
                  Alike-Synced newest c1 c2
                    (record { same_synced = refl; same_predictor = refl; same_server = refl }) s1 in
                let heard = newest_of clock 0 (p ∷ ps) c.manager newest in
                elim (Option-cases (take_packets false clock 0 (p ∷ ps) c2)) [
                  | inl d' ↦ absurd (ground (arith, d, d', e))
                  | inr (c3, d') ↦ rw d (
                      Alike-Synced heard c3 c'
                        (ask_again-Alike clock c3 c' (ground (arith, d, d', e)))
                        (take_packets-Synced clock 0 (p ∷ ps) newest c2 c3 d' s2))
                ])
        ]

    -- The newest snapshot after a client has waited.
    abbrev pub newest_heard :
        List ClientClock
        → Client A F R
        → Option (SnapshotHeader × FixedVec3)
        → Option (SnapshotHeader × FixedVec3)
    newest_heard [] c newest = newest
    newest_heard (clock ∷ clocks) c newest =
        if c.synced then newest else elim (sync_round server_addr clock c) [
          | none ↦ newest
          | some c' ↦
              newest_heard clocks c'
                (newest_polled clock (poll {A = A} c.transporter).0 c.manager newest)
        ]

    -- However many rounds a client waits for its first snapshot: if the manager handed over none,
    -- it still waits; else it has the tick and the position of the newest that was handed over, and
    -- predicts for the tick three after it.
    pub sync-Synced :
        (clocks : List ClientClock) (newest : Option (SnapshotHeader × FixedVec3))
        (c c' : Client A F R)
        → Synced newest c
        → sync server_addr clocks c ≡ some c'
        → Synced (newest_heard clocks c newest) c'
    unfolding sync sync_round
    sync-Synced [] newest c c' s e = rw (← same) s
      where
        same : c ≡ c'
        same = ground (arith, e)
    sync-Synced (clock ∷ clocks) newest c c' s e = elim (Bool-cases c.synced) [
      | inl done ↦ rw (newest_heard, done) (Alike-Synced newest c c' (ground (arith, done, e)) s)
      | inr waits ↦ elim (Option-cases (sync_round server_addr clock c)) [
        | inl d ↦ absurd (ground (arith, waits, d, e))
        | inr (c1, d) ↦
            rw (newest_heard, waits, d)
              (sync-Synced clocks
                (newest_polled clock (poll {A = A} c.transporter).0 c.manager newest) c1 c'
                (sync_round-Synced clock newest c c1 d s) (ground (arith, waits, d, e)))
      ]
    ]
