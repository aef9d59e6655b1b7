-- ===== src/Game/Client/Snapshots.antt =====
-- bin/server.rs and bin/client.rs: what the client reads from the snapshot packet of the server.
use riftnet_rust.Base.{
  ℕ, zero, suc, ◌-◌, ◌^◌, ◌<◌, ◌≡◌, ◌↔◌, refl, List, [], ◌∷◌, none, some, length, drop, arith,
}
use riftnet_rust.Base.Bytes.{to_le_bytes, from_le_bytes, take_bytes, read_le-append, read_le_cases}
use riftnet_rust.Protocol.Packet.{SnapshotHeader, read_general, general_bytes, snapshot_bytes}
use riftnet_rust.Protocol.Packet.RoundTrip.{
  FitsSnapshotHeader, read_snapshot-snapshot_bytes, read_snapshot-none,
}
use riftnet_rust.Connection.Manager.Delivery.{drop-append}
use riftnet_rust.Game.World.{FixedVec3}
use riftnet_rust.Game.Client.{position_bytes, snapshot_packet, read_position, read_snapshot_packet}

pub record FitsFixedVec3 (p : FixedVec3) : Type 0 where
  pub x_fits : p.x < 2 ^ 32
  pub y_fits : p.y < 2 ^ 32
  pub z_fits : p.z < 2 ^ 32

read_position-position_bytes :
    (p : FixedVec3) (ps : List FixedVec3)
    → FitsFixedVec3 p
    → read_position (position_bytes (p ∷ ps)) ≡ some p
unfolding read_position position_bytes
read_position-position_bytes p ps v =
    rw
      (
        read_position,
        position_bytes,
        read_le-append 4 p.x _ v.x_fits,
        read_le-append 4 p.y _ v.y_fits,
        read_le-append 4 p.z _ v.z_fits,
      )
      refl

length-snapshot_bytes : (h : SnapshotHeader) → length (snapshot_bytes h) ≡ 24
unfolding snapshot_bytes to_le_bytes
length-snapshot_bytes h = refl

-- The client reads from the server's packet the header and the first position, with fields in the
-- range of their types.
pub read_snapshot_packet-snapshot_packet :
    (hdr : SnapshotHeader) (p : FixedVec3) (ps : List FixedVec3)
    → FitsSnapshotHeader hdr
    → FitsFixedVec3 p
    → read_snapshot_packet (snapshot_packet hdr (record { positions = p ∷ ps }))
      ≡ some (some (hdr, p))
unfolding read_snapshot_packet snapshot_packet general_bytes read_general take_bytes from_le_bytes
    to_le_bytes
read_snapshot_packet-snapshot_packet hdr p ps vh vp =
    rw
      (
        read_snapshot-snapshot_bytes hdr (position_bytes (p ∷ ps)) vh,
        drop-append 24 (snapshot_bytes hdr) (position_bytes (p ∷ ps)) (length-snapshot_bytes hdr),
        read_position-position_bytes p ps vp,
      )
      refl

length-drop : (n : ℕ) (xs : List ℕ) → length (drop n xs) ≡ length xs - n
length-drop zero xs = omega arith
length-drop (suc n) [] = omega arith
length-drop (suc n) (x ∷ xs) = omega (arith, length-drop n xs)

read_position-none : (bs : List ℕ) → (read_position bs ≡ none) ↔ (length bs < 12)
unfolding read_position
read_position-none bs = grind (arith, read_le_cases)

-- A snapshot packet makes the client panic exactly if fewer than 36 bytes follow its first one.
pub read_snapshot_packet-none :
    (rest : List ℕ) → (read_snapshot_packet (3 ∷ rest) ≡ none) ↔ (length rest < 36)
unfolding read_snapshot_packet read_general take_bytes from_le_bytes
read_snapshot_packet-none rest =
    ground (arith, read_snapshot-none rest, read_position-none (drop 24 rest), length-drop 24 rest)
