-- ===== src/Connection/Manager/Delivery.antt =====
-- crates/connection/src/manager.rs: what one peer's flush sends, the other peer's manager hands to
-- its caller.
use riftnet_rust.Base.{
  ℕ, zero, suc, ◌<◌, ◌^◌, ◌≡◌, ◌⊎◌, inl, inr, refl, Option, some, List, [], ◌∷◌, ◌++◌, arith,
  length, take, drop, Bool-cases, length-append, ap, ltb,
}
use riftnet_rust.Base.Bytes.{
  to_le_bytes, from_le_bytes, length-to_le_bytes, from_le_bytes-to_le_bytes, take_bytes,
  take_bytes-append,
}
use riftnet_rust.Core.{ok, Result-cases}
use riftnet_rust.Float.{F32}
use riftnet_rust.Compression.{Lz4}
use riftnet_rust.Encryption.{Aead}
use riftnet_rust.Protocol.Packet.{PacketType, packet_code, read_general, general_bytes}
use riftnet_rust.Connection.Pipeline.{NetworkPipeline}
use riftnet_rust.Connection.Conn.{Connection, flush_unreliable, get_tx_nonce}
use riftnet_rust.Connection.Table.{SocketAddr, lookup, put, lookup-put_self}
use riftnet_rust.Connection.Receive.{answer, receive_unreliable, receive_packet}
use riftnet_rust.Connection.Manager.{ConnectionManager, open_connection, handle_packet}

-- What one pipeline processes, another undoes under the same nonce.
abbrev pub Undoes : NetworkPipeline → NetworkPipeline → Type 0
Undoes rx tx =
    (bytes : List ℕ) (nonce : ℕ) (sent : List ℕ)
    → tx.process bytes nonce ≡ ok sent
    → rx.inverse_process sent nonce ≡ ok bytes

-- The frame of an unreliable packet.
abbrev pub unreliable_frame : ℕ → ℕ → List ℕ → List ℕ
unreliable_frame code nonce encrypted = code ∷ (to_le_bytes 8 nonce ++ encrypted)

-- Either kind of unreliable packet.
abbrev pub IsUnreliable : ℕ → Type 0
IsUnreliable code = (code ≡ packet_code PacketType.snapshot) ⊎ (code ≡ packet_code PacketType.input)

pub take-append : (n : ℕ) (xs ys : List ℕ) → length xs ≡ n → take n (xs ++ ys) ≡ xs
take-append zero [] ys e = refl
take-append zero (x ∷ xs) ys e = absurd (omega arith)
take-append (suc n) [] ys e = absurd (omega arith)
take-append (suc n) (x ∷ xs) ys e = ap (λ r. x ∷ r) (take-append n xs ys (omega arith))

pub drop-append : (n : ℕ) (xs ys : List ℕ) → length xs ≡ n → drop n (xs ++ ys) ≡ ys
drop-append zero [] ys e = refl
drop-append zero (x ∷ xs) ys e = absurd (omega arith)
drop-append (suc n) [] ys e = absurd (omega arith)
drop-append (suc n) (x ∷ xs) ys e = drop-append n xs ys (omega arith)

module _ {A F : Type 0} ⦃f : F32 F⦄ ⦃lz4 : Lz4⦄ ⦃aead : Aead⦄ where
  receive_unreliable-frame :
      (c : Connection A F) (code nonce : ℕ) (encrypted body : List ℕ)
      → nonce < 2 ^ 64
      → c.pipeline.inverse_process encrypted nonce ≡ ok body
      → receive_unreliable c (record { packet_type = code }) (unreliable_frame code nonce encrypted)
        ≡ some (c, answer (some (general_bytes (record { packet_type = code }) ++ body)))
  unfolding receive_unreliable take_bytes
  receive_unreliable-frame c code nonce encrypted body fits e =
      elim (Bool-cases (ltb (length (unreliable_frame code nonce encrypted)) 9)) [
        | inl d ↦ absurd (
            ground
              (arith, length-append (to_le_bytes 8 nonce) encrypted, length-to_le_bytes 8 nonce))
        | inr d ↦
            rw
              (
                receive_unreliable,
                d,
                take_bytes-append 8 (to_le_bytes 8 nonce) encrypted (length-to_le_bytes 8 nonce),
                from_le_bytes-to_le_bytes 8 nonce fits,
                e,
              )
              refl
      ]

  receive_packet-frame :
      (c : Connection A F) (code nonce now : ℕ) (encrypted body : List ℕ)
      → IsUnreliable code
      → nonce < 2 ^ 64
      → c.pipeline.inverse_process encrypted nonce ≡ ok body
      → receive_packet c now (unreliable_frame code nonce encrypted)
        ≡ some (c, answer (some (code ∷ body)))
  unfolding receive_packet read_general take_bytes from_le_bytes general_bytes to_le_bytes
  receive_packet-frame c code nonce now encrypted body (inl q) fits e =
      rw q (receive_unreliable-frame c 3 nonce encrypted body fits e)
  receive_packet-frame c code nonce now encrypted body (inr q) fits e =
      rw q (receive_unreliable-frame c 4 nonce encrypted body fits e)

  -- What is sent for an unreliable payload.
  pub flush_unreliable-frame :
      (tx tx' : Connection A F) (code : ℕ) (body frame : List ℕ)
      → flush_unreliable tx (code ∷ body) ≡ some (tx', some frame)
      → (encrypted : List ℕ) × (tx.pipeline.process body tx.tx_nonce ≡ ok encrypted)
        × (frame ≡ unreliable_frame code tx.tx_nonce encrypted)
  unfolding flush_unreliable take_bytes get_tx_nonce
  flush_unreliable-frame tx tx' code body frame e =
      elim (Result-cases (tx.pipeline.process body tx.tx_nonce)) [
        | inl (encrypted, d) ↦ (encrypted, d, ground (arith, d))
        | inr (fault, d) ↦ absurd (ground (arith, d))
      ]

  module _ ⦃addrs : SocketAddr A⦄ where
    -- A packet of a known sender that is answered without a change of its connection.
    pub handle_packet-answer :
        (m : ConnectionManager A F) (addr : A) (rx : Connection A F) (bytes : List ℕ)
        (now nanos : ℕ) (reply : Option (List ℕ))
        → lookup addr m.connections ≡ some rx
        → receive_packet (record rx { last_seen = now }) now bytes
          ≡ some (record rx { last_seen = now }, answer reply)
        → handle_packet m addr bytes now nanos
          ≡ some (
            record { connections = put addr (record rx { last_seen = now }) m.connections },
            reply,
          )
    unfolding handle_packet open_connection
    handle_packet-answer m addr rx bytes now nanos reply found e =
        rw (handle_packet, open_connection, found, e) refl

    -- Take the frame that a flush sends for an unreliable payload, of a snapshot or an input, under
    -- a nonce of 64 bits. A manager that knows the sender, and whose pipeline for it undoes the
    -- sender's, hands the payload that was queued to its caller; of its connections only the
    -- instant at which the sender was seen changes.
    pub unreliable_delivered :
        (tx tx' rx : Connection A F) (m : ConnectionManager A F) (addr : A) (code : ℕ)
        (body frame : List ℕ) (now nanos : ℕ)
        → IsUnreliable code
        → tx.tx_nonce < 2 ^ 64
        → Undoes rx.pipeline tx.pipeline
        → flush_unreliable tx (code ∷ body) ≡ some (tx', some frame)
        → lookup addr m.connections ≡ some rx
        → handle_packet m addr frame now nanos
          ≡ some (
            record { connections = put addr (record rx { last_seen = now }) m.connections },
            some (code ∷ body),
          )
    unreliable_delivered tx tx' rx m addr code body frame now nanos kind fits undoes sent found =
        let (encrypted, processed, q) = flush_unreliable-frame tx tx' code body frame sent in
        handle_packet-answer m addr rx frame now nanos (some (code ∷ body)) found (
          rw q (
            receive_packet-frame (record rx { last_seen = now }) code tx.tx_nonce now encrypted body
              kind fits (undoes body tx.tx_nonce encrypted processed)))

    -- Take the frame that a flush sends for an unreliable payload, of a snapshot or an input, under
    -- a nonce of 64 bits. A manager that knows the sender, and whose pipeline for it undoes the
    -- sender's, hands the payload to its caller, and when the same frame arrives once more, hands
    -- it to its caller once more.
    pub unreliable_replayed :
        (tx tx' rx : Connection A F) (m : ConnectionManager A F) (addr : A) (code : ℕ)
        (body frame : List ℕ) (now nanos now' nanos' : ℕ)
        → IsUnreliable code
        → tx.tx_nonce < 2 ^ 64
        → Undoes rx.pipeline tx.pipeline
        → flush_unreliable tx (code ∷ body) ≡ some (tx', some frame)
        → lookup addr m.connections ≡ some rx
        → (m1 : ConnectionManager A F) × (m2 : ConnectionManager A F) × (handle_packet m addr frame
              now nanos
            ≡ some (m1, some (code ∷ body)))
          × (handle_packet m1 addr frame now' nanos' ≡ some (m2, some (code ∷ body)))
    unreliable_replayed tx tx' rx m addr code body frame now nanos now' nanos' kind fits undoes sent
          found =
        let rx1 = record rx { last_seen = now } in
        let m1 : ConnectionManager A F = record { connections = put addr rx1 m.connections } in
        (
          m1,
          record { connections = put addr (record rx { last_seen = now' }) m1.connections },
          unreliable_delivered tx tx' rx m addr code body frame now nanos kind fits undoes sent
              found,
          unreliable_delivered tx tx' rx1 m1 addr code body frame now' nanos' kind fits undoes sent
              (lookup-put_self addr rx1 m.connections),
        )
