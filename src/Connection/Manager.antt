-- ===== src/Connection/Manager.antt =====
-- crates/connection/src/manager.rs: the connections by address, and the handling of a datagram.
-- `now` is the instant of a call, and `nanos` what `Instant::now().elapsed().as_nanos()` gives in
-- it. A panic is `none`. Logging is left out.
pub mod Safety
pub mod Sendable
pub mod Flush
pub mod Sound
pub mod Run
pub mod Isolation
pub mod Delivery
pub mod ReliableDelivery
pub mod Handshake
use Prim.Native.Nat.{bit_xor}
use riftnet_rust.Base.{
  ℕ, zero, suc, ◌+◌, ◌-◌, ◌*◌, ◌%◌, ◌^◌, Bool, true, false, not, ◌||◌, ◌&&◌, Option, none, some,
  List, [], ◌∷◌, ◌++◌, length, ltb, leb, ◌==◌, if◌then◌else◌, take, drop, replicate, get_elem?, set,
}
use riftnet_rust.Base.Bytes.{to_le_bytes, from_le_bytes}
use riftnet_rust.Core.{Result, ok, err}
use riftnet_rust.Float.{F32}
use riftnet_rust.Compression.{Lz4}
use riftnet_rust.Encryption.{Aead}
use riftnet_rust.Protocol.Packet.{
  PacketType, packet_code, GeneralPacketHeader, ReliabilityPacketHeader, HandshakePacket, as_bytes,
  read_from_prefix, general_wire, reliability_wire, handshake_wire, size_of,
}
use riftnet_rust.Protocol.Reliable.{ReliableConnectionState, process_incoming_header}
use riftnet_rust.Connection.Pipeline.{NetworkPipeline, secure_pipeline}
use riftnet_rust.Connection.Conn.{Connection, queue_pending_send, update}
use riftnet_rust.Connection.Conn
use riftnet_rust.Connection.Table.{SocketAddr, lookup, put, erase, retain}
use riftnet_rust.Connection.Receive.{
  static_poc_key, write_bytes, xor_byte, xor_bytes, session_key, Verdict, answer, disconnected,
  is_type, read_inner_handshake, is_blocked, take_payload, receive_reliable, receive_unreliable,
  receive_packet, dispatch_handshake,
}

pub record ConnectionManager (A F : Type 0) : Type 0 where
  pub connections : List (A × Connection A F)

-- The packets of one connection, with its address.
abbrev pub tag : {A : Type 0} → A → List (List ℕ) → List (List ℕ × A)
tag addr [] = []
tag addr (bytes ∷ rest) = (bytes, addr) ∷ tag addr rest

module _ {A F : Type 0} ⦃f : F32 F⦄ ⦃lz4 : Lz4⦄ ⦃aead : Aead⦄ ⦃addrs : SocketAddr A⦄ where
  unfoldable pub new : ConnectionManager A F
  new = record { connections = [] }

  -- `or_insert_with` for the role given.
  unfoldable pub new_connection : ℕ → A → Bool → Option (Connection A F)
  new_connection now addr is_server = elim (secure_pipeline static_poc_key) [
    | none ↦ none
    | some p ↦ some (Conn.new now addr is_server p)
  ]

  -- The connection of a sender, before its packet is read.
  unfoldable pub open_connection : ConnectionManager A F → A → ℕ → ℕ → Option (Connection A F)
  open_connection m addr now nanos = elim (lookup addr m.connections) [
    | some c ↦ some (record c { last_seen = now })
    | none ↦ elim (new_connection now addr true) [
      | none ↦ none
      | some c ↦ elim (session_key (addrs.ip_string addr) nanos) [
        | none ↦ none
        | some key ↦ dispatch_handshake (record c { last_seen = now }) key
      ]
    ]
  ]

  unfoldable pub process_disconnect : ConnectionManager A F → A → ConnectionManager A F
  process_disconnect m addr = record { connections = erase addr m.connections }

  unfoldable pub handle_packet :
      ConnectionManager A F → A → List ℕ → ℕ → ℕ → Option (ConnectionManager A F × Option (List ℕ))
  handle_packet m addr bytes now nanos = elim (open_connection m addr now nanos) [
    | none ↦ none
    | some c ↦ elim (receive_packet c now bytes) [
      | none ↦ none
      | some (c', verdict) ↦
          (let m' : ConnectionManager A F = record { connections = put addr c' m.connections } in
            elim verdict [
              | answer reply ↦ some (m', reply)
              | disconnected ↦ some (process_disconnect m' addr, none)
            ])
    ]
  ]

  unfoldable pub connection_count : ConnectionManager A F → ℕ
  connection_count m = length m.connections

  unfoldable pub get_connection_state :
      ConnectionManager A F → A → Option (ReliableConnectionState F)
  get_connection_state m addr = elim (lookup addr m.connections) [
    | none ↦ none
    | some c ↦ some c.state
  ]

  -- The map itself, which the caller reads or, by the other method, changes.
  abbrev pub get_active_connections : ConnectionManager A F → List (A × Connection A F)
  get_active_connections m = m.connections

  unfoldable pub send_to_client :
      ConnectionManager A F → A → List ℕ → Bool → Bool → ℕ → Option (ConnectionManager A F)
  send_to_client m addr bytes reliable is_server now =
      let found : Option (Connection A F) = elim (lookup addr m.connections) [
        | some c ↦ some c
        | none ↦ new_connection now addr is_server
      ] in
      elim found [
        | none ↦ none
        | some c ↦
            some (record {
              connections = put addr (queue_pending_send c bytes reliable) m.connections;
            })
      ]

  unfoldable pub set_pipeline : ConnectionManager A F → A → NetworkPipeline → ConnectionManager A F
  set_pipeline m addr p = elim (lookup addr m.connections) [
    | none ↦ m
    | some c ↦ record { connections = put addr (record c { pipeline = p }) m.connections }
  ]

  -- The loop of `flush_all`: the connections afterwards, and the calls of `send_func`.
  unfoldable pub flush_connections :
      ℕ → List (A × Connection A F) → Option (List (A × Connection A F) × List (List ℕ × A))
  flush_connections now [] = some ([], [])
  flush_connections now ((addr, c) ∷ rest) = elim (update c now) [
    | none ↦ none
    | some (c', sent) ↦ elim (flush_connections now rest) [
      | none ↦ none
      | some (rest', sent') ↦ some ((addr, c') ∷ rest', tag addr sent ++ sent')
    ]
  ]

  unfoldable pub flush_all :
      ConnectionManager A F → ℕ → Option (ConnectionManager A F × List (List ℕ × A))
  flush_all m now = elim (flush_connections now m.connections) [
    | none ↦ none
    | some (conns, sent) ↦ some (record { connections = conns }, sent)
  ]

  unfoldable pub evict_stale_connections : ConnectionManager A F → ℕ → ℕ → ConnectionManager A F
  evict_stale_connections m timeout now = record {
    connections = retain (λ c. ltb (now - c.last_seen) timeout) m.connections;
  }
