-- ===== src/Connection/Manager/Safety.antt =====
-- crates/connection/src/manager.rs: no datagram makes the manager panic.
use Prim.Native.Nat.{bit_xor}
use riftnet_rust.Base.{
  zero, suc, ◌<◌, ◌≤◌, ltb, Bool-cases, ℕ, ◌+◌, ◌≡◌, ◌≢◌, inl, inr, refl, ◌∙◌, Bool, true, Option,
  none, some, List, [], ◌∷◌, length, arith, length-set, get_elem?, take, replicate, set,
  Option-cases,
}
use riftnet_rust.Base.Bytes.{length-to_le_bytes, length_taken, to_le_bytes, take_bytes_cases}
use riftnet_rust.Float.{F32}
use riftnet_rust.Compression.{Lz4}
use riftnet_rust.Encryption.{Aead}
use riftnet_rust.Protocol.Packet.{
  GeneralPacketHeader, ReliabilityPacketHeader, HandshakePacket, read_handshake, general_wire,
  handshake_wire,
}
use riftnet_rust.Connection.Pipeline.{NetworkPipeline, secure_pipeline}
use riftnet_rust.Connection.Pipeline.RoundTrip.{secure_pipeline-none}
use riftnet_rust.Connection.Conn.{Connection}
use riftnet_rust.Connection.Table.{SocketAddr}
use riftnet_rust.Connection.Receive.{
  static_poc_key, write_bytes, xor_byte, xor_bytes, session_key, read_inner_handshake, take_payload,
  receive_body, receive_unreliable, receive_reliable, receive_packet, dispatch_handshake,
}
use riftnet_rust.Connection.Manager.{
  ConnectionManager, new_connection, open_connection, handle_packet,
}

write_bytes_total :
    (key : List ℕ) (i : ℕ) (bs : List ℕ)
    → i + length bs ≤ length key
    → (key' : List ℕ) × (write_bytes key i bs ≡ some key') × (length key' ≡ length key)
unfolding write_bytes
write_bytes_total key i [] fits = (key, refl, refl)
write_bytes_total key i (b ∷ bs) fits = elim (Bool-cases (ltb i (length key))) [
  | inr out ↦ absurd (ground (arith, out, fits))
  | inl inside ↦
      (let len = length-set key i b in
        let (key', e, same) =
          write_bytes_total (set key i b) (i + 1) bs (omega (arith, fits, len)) in
        (key', rw (write_bytes, inside) e, same ∙ len))
]

get_elem?_total : (key : List ℕ) (i : ℕ) → i < length key → (k : ℕ) × (get_elem? key i ≡ some k)
get_elem?_total [] i inside = absurd (omega arith)
get_elem?_total (k ∷ key) zero inside = (k, refl)
get_elem?_total (k ∷ key) (suc i) inside = get_elem?_total key i (omega (arith, inside))

xor_bytes_total :
    (key : List ℕ) (i : ℕ) (ts : List ℕ)
    → i + length ts ≤ length key
    → (key' : List ℕ) × (xor_bytes key i ts ≡ some key') × (length key' ≡ length key)
unfolding xor_bytes xor_byte
xor_bytes_total key i [] fits = (key, refl, refl)
xor_bytes_total key i (t ∷ ts) fits =
    let (k, found) = get_elem?_total key i (ground (arith, fits)) in
    let len = length-set key i (bit_xor k t) in
    let (key', e, same) =
      xor_bytes_total (set key i (bit_xor k t)) (i + 1) ts (omega (arith, fits, len)) in
    (key', rw (xor_bytes, xor_byte, found) e, same ∙ len)

length-take_le : (n : ℕ) (xs : List ℕ) → length (take n xs) ≤ n
length-take_le zero xs = omega arith
length-take_le (suc n) [] = omega arith
length-take_le (suc n) (x ∷ xs) = omega (arith, length-take_le n xs)

-- No index of the session key is out of bounds, and it has the 32 bytes that the cipher wants.
pub session_key_total :
    (ip : List ℕ) (nanos : ℕ)
    → (key : List ℕ) × (session_key ip nanos ≡ some key) × (length key ≡ 32)
unfolding session_key
session_key_total ip nanos =
    let (key, e, len) =
      write_bytes_total (replicate 32 0) 0 (take 32 ip) (omega (arith, length-take_le 32 ip)) in
    let (key', e', len') =
      xor_bytes_total key 16 (to_le_bytes 16 nanos)
        (omega (arith, len, length-to_le_bytes 16 nanos)) in
    (key', rw (session_key, e) e', len' ∙ len)

length-read_handshake :
    (bs : List ℕ) (hs : HandshakePacket) → read_handshake bs ≡ some hs → length hs.session_key ≡ 32
unfolding read_handshake
length-read_handshake bs hs e = elim (take_bytes_cases 32 bs) [
  | inl (short, d) ↦ ground arith
  | inr (front, rest, d, len) ↦ ground (arith, length_taken 32 bs front rest d)
]

pub length-read_inner_handshake :
    (bs : List ℕ) (hs : HandshakePacket)
    → read_inner_handshake bs ≡ some (some hs)
    → length hs.session_key ≡ 32
unfolding read_inner_handshake
length-read_inner_handshake bs hs e = elim (take_bytes_cases 1 bs) [
  | inl (short, d) ↦ absurd (ground (arith, d, e))
  | inr (front, rest, d, len) ↦ ground (arith, d, e, length-read_handshake rest hs)
]

read_inner_handshake_total : (bs : List ℕ) → read_inner_handshake bs ≢ none
unfolding read_inner_handshake
read_inner_handshake_total bs e = elim (take_bytes_cases 1 bs) [
  | inl (short, d) ↦ ground (arith, d, e, short)
  | inr (front, rest, d, len) ↦ ground (arith, d, e)
]

pub secure_pipeline_total :
    ⦃lz4 : Lz4⦄ ⦃aead : Aead⦄ (key : List ℕ)
    → length key ≡ 32
    → (p : NetworkPipeline) × (secure_pipeline key ≡ some p)
secure_pipeline_total key len = elim (Option-cases (secure_pipeline key)) [
  | inl e ↦ absurd ((secure_pipeline-none key).0 e len)
  | inr found ↦ found
]

module _ {A F : Type 0} ⦃f : F32 F⦄ ⦃lz4 : Lz4⦄ ⦃aead : Aead⦄ where
  take_payload_total : (c : Connection A F) (bs : List ℕ) → take_payload c bs ≢ none
  unfolding take_payload
  take_payload_total c bs e = elim (Option-cases (read_inner_handshake bs)) [
    | inl d ↦ read_inner_handshake_total bs d
    | inr (none, d) ↦ ground (arith, d, e)
    | inr (some hs, d) ↦
        ground
          (arith, d, e, secure_pipeline_total hs.session_key (length-read_inner_handshake bs hs d))
  ]

  receive_body_total :
      (c : Connection A F) (bs : List ℕ) (h : ReliabilityPacketHeader) (body : List ℕ)
      → receive_body c bs h body ≢ none
  unfolding receive_body
  receive_body_total c bs h body e = grind (arith, take_payload_total)

  receive_reliable_total :
      (c : Connection A F) (now : ℕ) (bs : List ℕ) → receive_reliable c now bs ≢ none
  unfolding receive_reliable
  receive_reliable_total c now bs e = elim (take_bytes_cases 1 bs) [
    | inl (short, d) ↦ ground (arith, d, e, short)
    | inr (front, rest, d, len) ↦ elim (take_bytes_cases 9 bs) [
      | inl (short, d') ↦ ground (arith, d, d', e, short)
      | inr (front', body, d', len') ↦ grind (arith, receive_body_total)
    ]
  ]

  receive_unreliable_total :
      (c : Connection A F) (h : GeneralPacketHeader) (bs : List ℕ)
      → receive_unreliable c h bs ≢ none
  unfolding receive_unreliable
  receive_unreliable_total c h bs e = elim (take_bytes_cases 1 bs) [
    | inl (short, d) ↦ ground (arith, d, e, short)
    | inr (front, rest, d, len) ↦ elim (take_bytes_cases 8 rest) [
      | inl (short, d') ↦ ground (arith, d, d', e, short, len)
      | inr (front', body, d', len') ↦ ground (arith, d, d', e)
    ]
  ]

  receive_packet_total :
      (c : Connection A F) (now : ℕ) (bs : List ℕ) → receive_packet c now bs ≢ none
  unfolding receive_packet
  receive_packet_total c now bs e = grind (arith, receive_reliable_total, receive_unreliable_total)

  dispatch_handshake_total :
      (c : Connection A F) (key : List ℕ) → length key ≡ 32 → dispatch_handshake c key ≢ none
  unfolding dispatch_handshake
  dispatch_handshake_total c key len e = ground (arith, secure_pipeline_total key len)

  module _ ⦃addrs : SocketAddr A⦄ where
    new_connection_total :
        (now : ℕ) (addr : A) (is_server : Bool) → new_connection {F = F} now addr is_server ≢ none
    unfolding new_connection
    new_connection_total now addr is_server e =
        ground (arith, secure_pipeline_total static_poc_key refl)

    open_connection-ne-none :
        (m : ConnectionManager A F) (addr : A) (now nanos : ℕ)
        → open_connection m addr now nanos ≢ none
    unfolding open_connection
    open_connection-ne-none m addr now nanos e =
        elim (Option-cases (new_connection {F = F} now addr true)) [
          | inl d ↦ new_connection_total now addr true d
          | inr (c, d) ↦
              (let (key, made, len) = session_key_total (addrs.ip_string addr) nanos in
                ground
                  (arith, d, made, dispatch_handshake_total (record c { last_seen = now }) key len))
        ]

    pub open_connection_total :
        (m : ConnectionManager A F) (addr : A) (now nanos : ℕ)
        → (c : Connection A F) × (open_connection m addr now nanos ≡ some c)
    open_connection_total m addr now nanos =
        elim (Option-cases (open_connection m addr now nanos)) [
          | inl e ↦ absurd (open_connection-ne-none m addr now nanos e)
          | inr found ↦ found
        ]

    handle_packet-ne-none :
        (m : ConnectionManager A F) (addr : A) (bytes : List ℕ) (now nanos : ℕ)
        → handle_packet m addr bytes now nanos ≢ none
    unfolding handle_packet
    handle_packet-ne-none m addr bytes now nanos e =
        let (c, d) = open_connection_total m addr now nanos in
        ground (arith, d, receive_packet_total c now bytes)

    -- Whatever a sender puts into a datagram, it is handled without a panic.
    pub handle_packet_total :
        (m : ConnectionManager A F) (addr : A) (bytes : List ℕ) (now nanos : ℕ)
        → (m' : ConnectionManager A F) × (reply : Option (List ℕ)) × (handle_packet m addr bytes now
              nanos
            ≡ some (m', reply))
    handle_packet_total m addr bytes now nanos =
        elim (Option-cases (handle_packet m addr bytes now nanos)) [
          | inl e ↦ absurd (handle_packet-ne-none m addr bytes now nanos e)
          | inr ((m', reply), e) ↦ (m', reply, e)
        ]
