-- ===== src/Game/Client/Loop/Heard.antt =====
-- bin/client.rs: the newest snapshot among what the manager hands over in a poll.
use riftnet_rust.Base.{ℕ, suc, Option, none, some, List, [], ◌∷◌}
use riftnet_rust.Core.{Result, ok, err}
use riftnet_rust.Float.{F32}
use riftnet_rust.Compression.{Lz4}
use riftnet_rust.Encryption.{Aead}
use riftnet_rust.Protocol.Packet.{SnapshotHeader}
use riftnet_rust.Connection.Table.{SocketAddr}
use riftnet_rust.Connection.Manager.{ConnectionManager, handle_packet}
use riftnet_rust.Game.World.{FixedVec3}
use riftnet_rust.Game.Client.{read_snapshot_packet}
use riftnet_rust.Game.Client.Loop.{ClientClock}

-- The newest snapshot, after what the manager hands over.
abbrev pub told :
    Option (List ℕ) → Option (SnapshotHeader × FixedVec3) → Option (SnapshotHeader × FixedVec3)
told none newest = newest
told (some app_data) newest = elim (read_snapshot_packet app_data) [
  | none ↦ newest
  | some none ↦ newest
  | some (some snapshot) ↦ some snapshot
]

module _ {A F : Type 0} ⦃f : F32 F⦄ ⦃lz4 : Lz4⦄ ⦃aead : Aead⦄ ⦃addrs : SocketAddr A⦄ where
  -- The newest snapshot after the packets of a poll, from number `i` on, and after a poll.
  abbrev pub newest_of :
      ClientClock
      → ℕ
      → List (List ℕ × A)
      → ConnectionManager A F
      → Option (SnapshotHeader × FixedVec3)
      → Option (SnapshotHeader × FixedVec3)
  newest_of clock i [] m newest = newest
  newest_of clock i ((packet, sender) ∷ rest) m newest =
      elim (handle_packet m sender packet (clock.received i) (clock.nanos i)) [
        | none ↦ newest
        | some (m', reply) ↦ newest_of clock (suc i) rest m' (told reply newest)
      ]

  abbrev pub newest_polled :
      ClientClock
      → Result (List (List ℕ × A))
      → ConnectionManager A F
      → Option (SnapshotHeader × FixedVec3)
      → Option (SnapshotHeader × FixedVec3)
  newest_polled clock (err e) m newest = newest
  newest_polled clock (ok packets) m newest = newest_of clock 0 packets m newest
