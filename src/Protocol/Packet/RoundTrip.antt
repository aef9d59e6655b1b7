-- ===== src/Protocol/Packet/RoundTrip.antt =====
-- crates/protocol/src/packet.rs: reading back what was written, sizes, and short buffers.
use riftnet_rust.Base.{ℕ, ◌<◌, ◌^◌, ◌≡◌, ◌↔◌, List, ◌++◌, none, some, length, arith}
use riftnet_rust.Base.Bytes.{read_le-append, read_le_cases, take_bytes_cases, take_bytes-append}
use riftnet_rust.Protocol.Packet.{
  as_bytes, read_from_prefix, size_of, snapshot_wire, input_wire, general_wire, reliability_wire,
  disconnect_wire, handshake_wire, SnapshotHeader, InputPacket, GeneralPacketHeader,
  ReliabilityPacketHeader, DisconnectPacket, DataPacketHeader, HandshakePacket, read_snapshot,
  snapshot_bytes, read_input, input_bytes, read_general, general_bytes, read_reliability,
  reliability_bytes, read_handshake, handshake_bytes, read_disconnect, disconnect_bytes, read_data,
  data_bytes,
}
use mathlib.Core.List.{append_assoc}

-- The fields of a `SnapshotHeader` fit their types.
pub record FitsSnapshotHeader (h : SnapshotHeader) : Type 0 where
  pub tick_fits : h.tick < 2 ^ 64
  pub state_hash_fits : h.state_hash < 2 ^ 64
  pub last_input_tick_fits : h.last_input_tick < 2 ^ 64

pub read_snapshot-snapshot_bytes :
    (h : SnapshotHeader) (rest : List ℕ)
    → FitsSnapshotHeader h
    → read_snapshot (snapshot_bytes h ++ rest) ≡ some h
unfolding read_snapshot snapshot_bytes
read_snapshot-snapshot_bytes h rest v = rw (
  snapshot_bytes,
  append_assoc,
  append_assoc,
  read_snapshot,
  read_le-append 8 h.tick _ v.tick_fits,
  read_le-append 8 h.state_hash _ v.state_hash_fits,
  read_le-append 8 h.last_input_tick _ v.last_input_tick_fits,
)

pub read_snapshot-none : (bs : List ℕ) → (read_snapshot bs ≡ none) ↔ (length bs < 24)
unfolding read_snapshot
read_snapshot-none bs = grind (arith, read_le_cases)

-- The fields of a `InputPacket` fit their types.
pub record FitsInputPacket (h : InputPacket) : Type 0 where
  pub tick_fits : h.tick < 2 ^ 64
  pub input_bitmask_fits : h.input_bitmask < 2 ^ 32

pub read_input-input_bytes :
    (h : InputPacket) (rest : List ℕ)
    → FitsInputPacket h
    → read_input (input_bytes h ++ rest) ≡ some h
unfolding read_input input_bytes
read_input-input_bytes h rest v = rw (
  input_bytes,
  append_assoc,
  read_input,
  read_le-append 8 h.tick _ v.tick_fits,
  read_le-append 4 h.input_bitmask _ v.input_bitmask_fits,
)

pub read_input-none : (bs : List ℕ) → (read_input bs ≡ none) ↔ (length bs < 12)
unfolding read_input
read_input-none bs = grind (arith, read_le_cases)

-- The fields of a `GeneralPacketHeader` fit their types.
pub record FitsGeneralPacketHeader (h : GeneralPacketHeader) : Type 0 where
  pub packet_type_fits : h.packet_type < 2 ^ 8

pub read_general-general_bytes :
    (h : GeneralPacketHeader) (rest : List ℕ)
    → FitsGeneralPacketHeader h
    → read_general (general_bytes h ++ rest) ≡ some h
unfolding read_general general_bytes
read_general-general_bytes h rest v =
    rw (general_bytes, read_general, read_le-append 1 h.packet_type _ v.packet_type_fits)

pub read_general-none : (bs : List ℕ) → (read_general bs ≡ none) ↔ (length bs < 1)
unfolding read_general
read_general-none bs = grind (arith, read_le_cases)

-- The fields of a `ReliabilityPacketHeader` fit their types.
pub record FitsReliabilityPacketHeader (h : ReliabilityPacketHeader) : Type 0 where
  pub sequence_fits : h.sequence < 2 ^ 16
  pub ack_fits : h.ack < 2 ^ 16
  pub ack_bitfield_fits : h.ack_bitfield < 2 ^ 32

pub read_reliability-reliability_bytes :
    (h : ReliabilityPacketHeader) (rest : List ℕ)
    → FitsReliabilityPacketHeader h
    → read_reliability (reliability_bytes h ++ rest) ≡ some h
unfolding read_reliability reliability_bytes
read_reliability-reliability_bytes h rest v = rw (
  reliability_bytes,
  append_assoc,
  append_assoc,
  read_reliability,
  read_le-append 2 h.sequence _ v.sequence_fits,
  read_le-append 2 h.ack _ v.ack_fits,
  read_le-append 4 h.ack_bitfield _ v.ack_bitfield_fits,
)

pub read_reliability-none : (bs : List ℕ) → (read_reliability bs ≡ none) ↔ (length bs < 8)
unfolding read_reliability
read_reliability-none bs = grind (arith, read_le_cases)

-- The fields of a `DataPacketHeader` fit their types.
pub record FitsDataPacketHeader (h : DataPacketHeader) : Type 0 where
  pub uncompressed_size_fits : h.uncompressed_size < 2 ^ 32

pub read_data-data_bytes :
    (h : DataPacketHeader) (rest : List ℕ)
    → FitsDataPacketHeader h
    → read_data (data_bytes h ++ rest) ≡ some h
unfolding read_data data_bytes
read_data-data_bytes h rest v =
    rw (data_bytes, read_data, read_le-append 4 h.uncompressed_size _ v.uncompressed_size_fits)

pub read_data-none : (bs : List ℕ) → (read_data bs ≡ none) ↔ (length bs < 4)
unfolding read_data
read_data-none bs = grind (arith, read_le_cases)

-- The fields of a `DisconnectPacket` fit their types.
pub record FitsDisconnectPacket (h : DisconnectPacket) : Type 0 where
  pub header_fits : h.header.packet_type < 2 ^ 8
  pub reason_code_fits : h.reason_code < 2 ^ 32

pub read_disconnect-disconnect_bytes :
    (h : DisconnectPacket) (rest : List ℕ)
    → FitsDisconnectPacket h
    → read_disconnect (disconnect_bytes h ++ rest) ≡ some h
unfolding read_disconnect disconnect_bytes general_bytes
read_disconnect-disconnect_bytes h rest v = rw (
  disconnect_bytes,
  append_assoc,
  read_disconnect,
  read_le-append 1 h.header.packet_type _ v.header_fits,
  read_le-append 4 h.reason_code _ v.reason_code_fits,
)

pub read_disconnect-none : (bs : List ℕ) → (read_disconnect bs ≡ none) ↔ (length bs < 5)
unfolding read_disconnect
read_disconnect-none bs = grind (arith, read_le_cases)

pub read_handshake-handshake_bytes :
    (h : HandshakePacket) (rest : List ℕ)
    → length h.session_key ≡ 32
    → read_handshake (handshake_bytes h ++ rest) ≡ some h
unfolding read_handshake handshake_bytes
read_handshake-handshake_bytes h rest e =
    rw (handshake_bytes, read_handshake, take_bytes-append 32 h.session_key rest e)

pub read_handshake-none : (bs : List ℕ) → (read_handshake bs ≡ none) ↔ (length bs < 32)
unfolding read_handshake
read_handshake-none bs = ground (arith, take_bytes_cases 32 bs)

-- The six structs that the program reads, with fields in the range of their types and a session key
-- of 32 bytes, are read back from their bytes whatever bytes follow.
pub wire_round_trip :
    (s : SnapshotHeader) (i : InputPacket) (g : GeneralPacketHeader) (r : ReliabilityPacketHeader)
    (d : DisconnectPacket) (h : HandshakePacket) (rest : List ℕ)
    → FitsSnapshotHeader s
    → FitsInputPacket i
    → FitsGeneralPacketHeader g
    → FitsReliabilityPacketHeader r
    → FitsDisconnectPacket d
    → length h.session_key ≡ 32
    → (read_from_prefix (as_bytes s ++ rest) ≡ some s)
      × (read_from_prefix (as_bytes i ++ rest) ≡ some i)
      × (read_from_prefix (as_bytes g ++ rest) ≡ some g)
      × (read_from_prefix (as_bytes r ++ rest) ≡ some r)
      × (read_from_prefix (as_bytes d ++ rest) ≡ some d)
      × (read_from_prefix (as_bytes h ++ rest) ≡ some h)
wire_round_trip s i g r d h rest vs vi vg vr vd e = (
  read_snapshot-snapshot_bytes s rest vs,
  read_input-input_bytes i rest vi,
  read_general-general_bytes g rest vg,
  read_reliability-reliability_bytes r rest vr,
  read_disconnect-disconnect_bytes d rest vd,
  read_handshake-handshake_bytes h rest e,
)

-- For the six structs that the program reads, a read fails exactly on a buffer that is shorter than
-- the struct.
pub wire_short :
    (bs : List ℕ)
    → ((read_from_prefix ⦃w = snapshot_wire⦄ bs ≡ none) ↔ (length bs < size_of SnapshotHeader))
      × ((read_from_prefix ⦃w = input_wire⦄ bs ≡ none) ↔ (length bs < size_of InputPacket))
      × ((read_from_prefix ⦃w = general_wire⦄ bs ≡ none)
          ↔ (length bs < size_of GeneralPacketHeader))
      × ((read_from_prefix ⦃w = reliability_wire⦄ bs ≡ none)
          ↔ (length bs < size_of ReliabilityPacketHeader))
      × ((read_from_prefix ⦃w = disconnect_wire⦄ bs ≡ none)
          ↔ (length bs < size_of DisconnectPacket))
      × ((read_from_prefix ⦃w = handshake_wire⦄ bs ≡ none) ↔ (length bs < size_of HandshakePacket))
wire_short bs = (
  read_snapshot-none bs,
  read_input-none bs,
  read_general-none bs,
  read_reliability-none bs,
  read_disconnect-none bs,
  read_handshake-none bs,
)
