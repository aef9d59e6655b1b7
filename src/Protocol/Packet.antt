-- ===== src/Protocol/Packet.antt =====
-- crates/protocol/src/packet.rs: the packet types and the structs of the wire, with their bytes.
-- A `repr(C, packed)` struct is its fields in order, with no padding, each little endian as on the
-- targets that the program is built for. zerocopy's `as_bytes` and `read_from_prefix` view these
-- bytes and check the length; they are the operations of `Wire`.
pub mod RoundTrip
use riftnet_rust.Base.{ℕ, ◌+◌, ◌<◌, ◌^◌, ◌≡◌, List, [], ◌∷◌, ◌++◌, Option, none, some, length}
use riftnet_rust.Base.Bytes.{◌>>=◌, to_le_bytes, read_le, take_bytes, IsBytes}

pub data PacketType : Type 0 where
  reliable disconnect snapshot input : PacketType

-- `PacketType::X as u8`.
abbrev pub packet_code : PacketType → ℕ
packet_code reliable = 1
packet_code disconnect = 2
packet_code snapshot = 3
packet_code input = 4

-- The part of zerocopy that the program calls: `size_of`, `as_bytes` and `read_from_prefix`.
pub record Wire (T : Type 0) : Type 0 where
  pub size_of : ℕ
  pub as_bytes : T → List ℕ
  pub read_from_prefix : List ℕ → Option T

abbrev pub as_bytes : {T : Type 0} ⦃w : Wire T⦄ → T → List ℕ
as_bytes ⦃w⦄ = w.as_bytes

abbrev pub read_from_prefix : {T : Type 0} ⦃w : Wire T⦄ → List ℕ → Option T
read_from_prefix ⦃w⦄ = w.read_from_prefix

abbrev pub size_of : (T : Type 0) ⦃w : Wire T⦄ → ℕ
size_of T ⦃w⦄ = w.size_of

pub record SnapshotHeader : Type 0 where
  pub tick : ℕ
  pub state_hash : ℕ
  pub last_input_tick : ℕ

pub record InputPacket : Type 0 where
  pub tick : ℕ
  pub input_bitmask : ℕ

pub record GeneralPacketHeader : Type 0 where
  pub packet_type : ℕ

pub record ReliabilityPacketHeader : Type 0 where
  pub sequence : ℕ
  pub ack : ℕ
  pub ack_bitfield : ℕ

pub record DisconnectPacket : Type 0 where
  pub header : GeneralPacketHeader
  pub reason_code : ℕ

pub record DataPacketHeader : Type 0 where
  pub uncompressed_size : ℕ

pub record HandshakePacket : Type 0 where
  pub session_key : List ℕ

unfoldable pub snapshot_bytes : SnapshotHeader → List ℕ
snapshot_bytes h =
    to_le_bytes 8 h.tick ++ (to_le_bytes 8 h.state_hash ++ (to_le_bytes 8 h.last_input_tick))

unfoldable pub read_snapshot : List ℕ → Option SnapshotHeader
unfolding read_le
read_snapshot bs = do
  (tick, rest) ← read_le 8 bs
  (state_hash, rest') ← read_le 8 rest
  (last_input_tick, rest'') ← read_le 8 rest'
  some (record { tick = tick; state_hash = state_hash; last_input_tick = last_input_tick })

instance abbrev pub snapshot_wire : Wire SnapshotHeader
snapshot_wire = record { size_of = 24; as_bytes = snapshot_bytes; read_from_prefix = read_snapshot }

unfoldable pub input_bytes : InputPacket → List ℕ
input_bytes h = to_le_bytes 8 h.tick ++ (to_le_bytes 4 h.input_bitmask)

unfoldable pub read_input : List ℕ → Option InputPacket
unfolding read_le
read_input bs = do
  (tick, rest) ← read_le 8 bs
  (input_bitmask, rest') ← read_le 4 rest
  some (record { tick = tick; input_bitmask = input_bitmask })

instance abbrev pub input_wire : Wire InputPacket
input_wire = record { size_of = 12; as_bytes = input_bytes; read_from_prefix = read_input }

unfoldable pub general_bytes : GeneralPacketHeader → List ℕ
general_bytes h = to_le_bytes 1 h.packet_type

unfoldable pub read_general : List ℕ → Option GeneralPacketHeader
unfolding read_le
read_general bs = do (packet_type, rest) ← read_le 1 bs; some (record { packet_type = packet_type })

instance abbrev pub general_wire : Wire GeneralPacketHeader
general_wire = record { size_of = 1; as_bytes = general_bytes; read_from_prefix = read_general }

unfoldable pub reliability_bytes : ReliabilityPacketHeader → List ℕ
reliability_bytes h =
    to_le_bytes 2 h.sequence ++ (to_le_bytes 2 h.ack ++ (to_le_bytes 4 h.ack_bitfield))

unfoldable pub read_reliability : List ℕ → Option ReliabilityPacketHeader
unfolding read_le
read_reliability bs = do
  (sequence, rest) ← read_le 2 bs
  (ack, rest') ← read_le 2 rest
  (ack_bitfield, rest'') ← read_le 4 rest'
  some (record { sequence = sequence; ack = ack; ack_bitfield = ack_bitfield })

instance abbrev pub reliability_wire : Wire ReliabilityPacketHeader
reliability_wire = record {
  size_of = 8;
  as_bytes = reliability_bytes;
  read_from_prefix = read_reliability;
}

unfoldable pub disconnect_bytes : DisconnectPacket → List ℕ
disconnect_bytes h = general_bytes h.header ++ to_le_bytes 4 h.reason_code

unfoldable pub read_disconnect : List ℕ → Option DisconnectPacket
unfolding read_le
read_disconnect bs = do
  (code, rest) ← read_le 1 bs
  (reason, rest') ← read_le 4 rest
  some (record { header = record { packet_type = code }; reason_code = reason })

instance abbrev pub disconnect_wire : Wire DisconnectPacket
disconnect_wire = record {
  size_of = 5;
  as_bytes = disconnect_bytes;
  read_from_prefix = read_disconnect;
}

unfoldable pub data_bytes : DataPacketHeader → List ℕ
data_bytes h = to_le_bytes 4 h.uncompressed_size

unfoldable pub read_data : List ℕ → Option DataPacketHeader
unfolding read_le
read_data bs = do
  (uncompressed_size, rest) ← read_le 4 bs
  some (record { uncompressed_size = uncompressed_size })

instance abbrev pub data_wire : Wire DataPacketHeader
data_wire = record { size_of = 4; as_bytes = data_bytes; read_from_prefix = read_data }

unfoldable pub handshake_bytes : HandshakePacket → List ℕ
handshake_bytes h = h.session_key

unfoldable pub read_handshake : List ℕ → Option HandshakePacket
unfolding take_bytes
read_handshake bs = do (key, rest) ← take_bytes 32 bs; some (record { session_key = key })

instance abbrev pub handshake_wire : Wire HandshakePacket
handshake_wire = record {
  size_of = 32;
  as_bytes = handshake_bytes;
  read_from_prefix = read_handshake;
}
