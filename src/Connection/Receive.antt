-- ===== src/Connection/Receive.antt =====
-- crates/connection/src/manager.rs: what a datagram means for the connection of its sender, and the
-- handshake of a new connection. A panic is `none`. Logging is left out.
pub mod Sendable
use Prim.Native.Nat.{bit_xor}
use riftnet_rust.Base.{
  ℕ, ◌+◌, Bool, true, false, not, ◌||◌, Option, none, some, List, [], ◌∷◌, ◌++◌, length, ltb, leb,
  ◌==◌, if◌then◌else◌, take, drop, replicate, get_elem?, set,
}
use riftnet_rust.Base.Bytes.{◌>>=◌, take_bytes, to_le_bytes, from_le_bytes}
use riftnet_rust.Core.{ok, err}
use riftnet_rust.Float.{F32}
use riftnet_rust.Compression.{Lz4}
use riftnet_rust.Encryption.{Aead}
use riftnet_rust.Protocol.Packet.{
  PacketType, packet_code, GeneralPacketHeader, ReliabilityPacketHeader, HandshakePacket, as_bytes,
  read_from_prefix, general_wire, reliability_wire, handshake_wire, size_of,
}
use riftnet_rust.Protocol.Reliable.{process_incoming_header}
use riftnet_rust.Connection.Pipeline.{secure_pipeline}
use riftnet_rust.Connection.Conn.{Connection, queue_pending_send}

-- `[0x42; 32]`
abbrev pub static_poc_key : List ℕ
static_poc_key = replicate 32 0x42

-- Bytes written over a key from index `i` on. An index past its end panics.
unfoldable pub write_bytes : List ℕ → ℕ → List ℕ → Option (List ℕ)
write_bytes key i [] = some key
write_bytes key i (b ∷ bs) = elim (ltb i (length key)) [
  | false ↦ none
  | true ↦ write_bytes (set key i b) (i + 1) bs
]

-- `key[i] ^= t`
unfoldable pub xor_byte : List ℕ → ℕ → ℕ → Option (List ℕ)
xor_byte key i t = elim (get_elem? key i) [ none ↦ none | some k ↦ some (set key i (bit_xor k t)) ]

-- Bytes mixed into a key from index `i` on.
unfoldable pub xor_bytes : List ℕ → ℕ → List ℕ → Option (List ℕ)
xor_bytes key i [] = some key
xor_bytes key i (t ∷ ts) = elim (xor_byte key i t) [
  | none ↦ none
  | some key' ↦ xor_bytes key' (i + 1) ts
]

-- The session key of a new client: the text of its IP address, and the clock over the second half.
unfoldable pub session_key : List ℕ → ℕ → Option (List ℕ)
unfolding write_bytes xor_bytes xor_byte
session_key ip nanos = do
  key ← write_bytes (replicate 32 0) 0 (take 32 ip)
  xor_bytes key 16 (to_le_bytes 16 nanos)

-- What a packet asks of the manager: an answer to the caller, or to forget the sender.
pub data Verdict : Type 0 where
  answer : Option (List ℕ) → Verdict
  disconnected : Verdict

-- `packet_type == PacketType::X as u8`
abbrev pub is_type : GeneralPacketHeader → PacketType → Bool
is_type h t = h.packet_type == packet_code t

-- The handshake inside a decrypted payload, if it is one. The slice behind the header panics where
-- there is no header.
unfoldable pub read_inner_handshake : List ℕ → Option (Option HandshakePacket)
read_inner_handshake decrypted = elim (read_from_prefix ⦃w = general_wire⦄ decrypted) [
  | none ↦ some none
  | some inner ↦
      if is_type inner PacketType.reliable
      then (if leb (size_of GeneralPacketHeader + size_of HandshakePacket) (length decrypted)
          then elim (take_bytes (size_of GeneralPacketHeader) decrypted) [
            | none ↦ none
            | some (header, body) ↦ some (read_from_prefix body)
          ]
          else some none)
      else some none
]

module _ {A F : Type 0} ⦃f : F32 F⦄ ⦃lz4 : Lz4⦄ ⦃aead : Aead⦄ where
  -- Before the handshake only reliable packets pass.
  unfoldable pub is_blocked : Connection A F → List ℕ → Bool
  is_blocked c bytes =
      if c.is_authenticated then false else elim (read_from_prefix ⦃w = general_wire⦄ bytes) [
        | none ↦ true
        | some h ↦ not (is_type h PacketType.reliable)
      ]

  -- The payload of a reliable packet: a handshake changes the pipeline, anything else is the answer.
  unfoldable pub take_payload : Connection A F → List ℕ → Option (Connection A F × Verdict)
  take_payload c decrypted = elim (read_inner_handshake decrypted) [
    | none ↦ none
    | some none ↦ some (c, answer (some decrypted))
    | some (some hs) ↦ elim (secure_pipeline hs.session_key) [
      | none ↦ none
      | some p ↦ some (record c { is_authenticated = true; pipeline = p }, answer none)
    ]
  ]

  -- The packet behind its two headers.
  unfoldable pub receive_body :
      Connection A F → List ℕ → ReliabilityPacketHeader → List ℕ → Option (Connection A F × Verdict)
  receive_body c bytes rel_hdr body =
      if is_blocked c bytes
      then some (c, answer none)
      else elim (c.pipeline.inverse_process body rel_hdr.sequence) [
        | err e ↦ some (c, answer none)
        | ok decrypted ↦ take_payload c decrypted
      ]

  -- `&data[gen_size..]` and `&data[payload_offset..]` panic where they begin past the end.
  unfoldable pub receive_reliable : Connection A F → ℕ → List ℕ → Option (Connection A F × Verdict)
  receive_reliable c now bytes =
      let payload_offset = size_of GeneralPacketHeader + size_of ReliabilityPacketHeader in
      if leb payload_offset (length bytes)
      then elim (take_bytes (size_of GeneralPacketHeader) bytes) [
        | none ↦ none
        | some (header, rest) ↦ elim (read_from_prefix ⦃w = reliability_wire⦄ rest) [
          | none ↦ some (c, answer none)
          | some rel_hdr ↦
              (let c' = record c { state = (process_incoming_header c.state rel_hdr now).0 } in
                elim (take_bytes payload_offset bytes) [
                  | none ↦ none
                  | some (headers, body) ↦ receive_body c' bytes rel_hdr body
                ])
        ]
      ]
      else some (c, answer none)

  -- `data[gen_size..gen_size + 8]` and `&data[gen_size + 8..]` panic past the end.
  unfoldable pub receive_unreliable :
      Connection A F → GeneralPacketHeader → List ℕ → Option (Connection A F × Verdict)
  receive_unreliable c gen_hdr bytes =
      if ltb (length bytes) (size_of GeneralPacketHeader + 8)
      then some (c, answer none)
      else elim (take_bytes (size_of GeneralPacketHeader) bytes) [
        | none ↦ none
        | some (header, rest) ↦ elim (take_bytes 8 rest) [
          | none ↦ none
          | some (nonce_bytes, body) ↦
              elim (c.pipeline.inverse_process body (from_le_bytes nonce_bytes)) [
                | err e ↦ some (c, answer none)
                | ok decrypted ↦ some (c, answer (some (as_bytes gen_hdr ++ decrypted)))
              ]
        ]
      ]

  -- The `match` on the packet type.
  unfoldable pub receive_packet : Connection A F → ℕ → List ℕ → Option (Connection A F × Verdict)
  receive_packet c now bytes = elim (read_from_prefix ⦃w = general_wire⦄ bytes) [
    | none ↦ some (c, answer none)
    | some gen_hdr ↦
        if is_type gen_hdr PacketType.reliable
        then receive_reliable c now bytes
        else if is_type gen_hdr PacketType.input || is_type gen_hdr PacketType.snapshot
        then receive_unreliable c gen_hdr bytes
        else if is_type gen_hdr PacketType.disconnect
        then some (c, disconnected)
        else some (c, answer none)
  ]

  -- A new connection of a server: the handshake with the session key is queued, and the pipeline of
  -- that key waits for the flush.
  unfoldable pub dispatch_handshake : Connection A F → List ℕ → Option (Connection A F)
  dispatch_handshake c key =
      let handshake : HandshakePacket = record { session_key = key } in
      let gen_hdr : GeneralPacketHeader = record {
        packet_type = packet_code PacketType.reliable;
      } in
      let queued = queue_pending_send c (as_bytes gen_hdr ++ as_bytes handshake) true in
      elim (secure_pipeline key) [
        | none ↦ none
        | some p ↦ some (record queued { handshake_sent = true; pending_pipeline_swap = some p })
      ]
