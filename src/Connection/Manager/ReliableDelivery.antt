-- ===== src/Connection/Manager/ReliableDelivery.antt =====
-- crates/connection/src/manager.rs: reliable packets, from one peer's flush to the other's caller.
use riftnet_rust.Base.{
  suc, ap, ℕ, ◌≡◌, inl, inr, refl, false, none, some, List, ◌∷◌, ◌++◌, arith, length, Bool-cases,
  length-append, leb,
}
use riftnet_rust.Base.Bytes.{take_bytes-append, to_le_bytes, from_le_bytes, take_bytes}
use riftnet_rust.Core.{ok, Result-cases}
use riftnet_rust.Float.{F32}
use riftnet_rust.Compression.{Lz4}
use riftnet_rust.Encryption.{Aead}
use riftnet_rust.Protocol.Packet.{
  ReliabilityPacketHeader, read_general, general_bytes, reliability_bytes,
}
use riftnet_rust.Protocol.Packet.RoundTrip.{
  FitsReliabilityPacketHeader, read_reliability-reliability_bytes,
}
use riftnet_rust.Protocol.Reliable.{process_incoming_header}
use riftnet_rust.Connection.Conn.{Connection, flush_reliable, reliable_frame}
use riftnet_rust.Connection.Table.{SocketAddr, lookup, put, lookup-put_self}
use riftnet_rust.Connection.Receive.{
  receive_body, read_inner_handshake, is_blocked, take_payload, receive_reliable, receive_packet,
}
use riftnet_rust.Connection.Manager.{ConnectionManager, open_connection, handle_packet}
use riftnet_rust.Connection.Manager.Delivery.{Undoes}

module _ {A F : Type 0} where
  -- The reliability header of the next reliable packet.
  abbrev pub next_header : Connection A F → ReliabilityPacketHeader
  next_header tx = record {
    sequence = tx.state.next_outgoing_sequence;
    ack = tx.state.highest_received_sequence;
    ack_bitfield = tx.state.received_sequence_bitfield;
  }

length-reliability_bytes : (h : ReliabilityPacketHeader) → length (reliability_bytes h) ≡ 8
unfolding reliability_bytes to_le_bytes
length-reliability_bytes h = refl

module _ {A F : Type 0} ⦃f : F32 F⦄ ⦃lz4 : Lz4⦄ ⦃aead : Aead⦄ where
  -- A connection after the header of a reliable packet, its payload not yet read.
  abbrev pub note_header : Connection A F → ReliabilityPacketHeader → ℕ → Connection A F
  note_header rx h now = record rx { state = (process_incoming_header rx.state h now).0 }

  -- Before the handshake and after it, a reliable packet passes.
  is_blocked-reliable : (c : Connection A F) (rest : List ℕ) → is_blocked c (1 ∷ rest) ≡ false
  unfolding is_blocked read_general take_bytes from_le_bytes
  is_blocked-reliable c rest = elim (Bool-cases c.is_authenticated) [
    | inl d ↦ rw (is_blocked, d) refl
    | inr d ↦ rw (is_blocked, d) refl
  ]

  receive_reliable-bytes :
      (c : Connection A F) (h : ReliabilityPacketHeader) (now : ℕ) (encrypted payload : List ℕ)
      → FitsReliabilityPacketHeader h
      → c.pipeline.inverse_process encrypted h.sequence ≡ ok payload
      → receive_reliable c now (1 ∷ (reliability_bytes h ++ encrypted))
        ≡ take_payload (note_header c h now) payload
  unfolding receive_reliable receive_body take_bytes
  receive_reliable-bytes c h now encrypted payload fits e =
      elim (Bool-cases (leb 9 (length (1 ∷ (reliability_bytes h ++ encrypted))))) [
        | inl d ↦
            rw
              (
                receive_reliable,
                d,
                read_reliability-reliability_bytes h encrypted fits,
                take_bytes-append 9 (1 ∷ reliability_bytes h) encrypted
                    (ap suc (length-reliability_bytes h)),
                receive_body,
                is_blocked-reliable (note_header c h now) (reliability_bytes h ++ encrypted),
                e,
              )
              refl
        | inr d ↦ absurd (
            ground
              (arith, length-append (reliability_bytes h) encrypted, length-reliability_bytes h))
      ]

  flush_reliable-frame :
      (tx tx' : Connection A F) (payload frame : List ℕ) (now : ℕ)
      → flush_reliable tx now payload ≡ (tx', some frame)
      → (encrypted : List ℕ) × (tx.pipeline.process payload tx.state.next_outgoing_sequence
          ≡ ok encrypted)
        × (frame ≡ 1 ∷ (reliability_bytes (next_header tx) ++ encrypted))
  unfolding flush_reliable reliable_frame general_bytes to_le_bytes
  flush_reliable-frame tx tx' payload frame now e =
      elim (Result-cases (tx.pipeline.process payload tx.state.next_outgoing_sequence)) [
        | inl (encrypted, d) ↦ (encrypted, d, ground (arith, d))
        | inr (fault, d) ↦ absurd (ground (arith, d))
      ]

  receive_packet-reliable :
      (c : Connection A F) (rest : List ℕ) (now : ℕ)
      → receive_packet c now (1 ∷ rest) ≡ receive_reliable c now (1 ∷ rest)
  unfolding receive_packet read_general take_bytes from_le_bytes
  receive_packet-reliable c rest now = refl

  -- A flushed reliable packet reaches the reading of its payload.
  pub receive_packet-flushed :
      (tx tx' c : Connection A F) (payload frame : List ℕ) (sent_at now : ℕ)
      → FitsReliabilityPacketHeader (next_header tx)
      → Undoes c.pipeline tx.pipeline
      → flush_reliable tx sent_at payload ≡ (tx', some frame)
      → receive_packet c now frame ≡ take_payload (note_header c (next_header tx) now) payload
  receive_packet-flushed tx tx' c payload frame sent_at now fits undoes sent =
      let (encrypted, processed, q) = flush_reliable-frame tx tx' payload frame sent_at sent in
      rw (q, receive_packet-reliable)
        (receive_reliable-bytes c (next_header tx) now encrypted payload fits
          (undoes payload tx.state.next_outgoing_sequence encrypted processed))

  module _ ⦃addrs : SocketAddr A⦄ where
    -- Take the frame that a flush sends for a reliable payload which is no handshake, with header
    -- fields in the range of their types. A manager that knows the sender, and whose pipeline for
    -- it undoes the sender's, hands that payload to its caller; the sender's connection notes the
    -- instant and the header, and nothing else.
    pub reliable_delivered :
        (tx tx' rx : Connection A F) (m : ConnectionManager A F) (addr : A) (payload frame : List ℕ)
        (sent_at now nanos : ℕ)
        → FitsReliabilityPacketHeader (next_header tx)
        → Undoes rx.pipeline tx.pipeline
        → read_inner_handshake payload ≡ some none
        → flush_reliable tx sent_at payload ≡ (tx', some frame)
        → lookup addr m.connections ≡ some rx
        → handle_packet m addr frame now nanos
          ≡ some (
            record {
              connections =
                  put addr
                    (note_header (record rx { last_seen = now }) (next_header tx) now)
                    m.connections;
            },
            some payload,
          )
    unfolding handle_packet open_connection take_payload
    reliable_delivered tx tx' rx m addr payload frame sent_at now nanos fits undoes plain sent
          found =
        rw
          (
            handle_packet,
            open_connection,
            found,
            receive_packet-flushed tx tx' (record rx { last_seen = now }) payload frame sent_at now
                fits undoes sent,
            plain,
          )
          refl

    -- Take the frame that a flush sends for a reliable payload which is no handshake, with header
    -- fields in the range of their types. A manager that knows the sender, and whose pipeline for
    -- it undoes the sender's, hands the payload to its caller, and when the same frame arrives once
    -- more, hands it to its caller once more.
    pub reliable_duplicated :
        (tx tx' rx : Connection A F) (m : ConnectionManager A F) (addr : A) (payload frame : List ℕ)
        (sent_at now nanos now' nanos' : ℕ)
        → FitsReliabilityPacketHeader (next_header tx)
        → Undoes rx.pipeline tx.pipeline
        → read_inner_handshake payload ≡ some none
        → flush_reliable tx sent_at payload ≡ (tx', some frame)
        → lookup addr m.connections ≡ some rx
        → (m1 : ConnectionManager A F) × (m2 : ConnectionManager A F) × (handle_packet m addr frame
              now nanos
            ≡ some (m1, some payload))
          × (handle_packet m1 addr frame now' nanos' ≡ some (m2, some payload))
    reliable_duplicated tx tx' rx m addr payload frame sent_at now nanos now' nanos' fits undoes
          plain sent found =
        let rx1 = note_header (record rx { last_seen = now }) (next_header tx) now in
        let rx2 = note_header (record rx1 { last_seen = now' }) (next_header tx) now' in
        let m1 : ConnectionManager A F = record { connections = put addr rx1 m.connections } in
        (
          m1,
          record { connections = put addr rx2 m1.connections },
          reliable_delivered tx tx' rx m addr payload frame sent_at now nanos fits undoes plain sent
              found,
          reliable_delivered tx tx' rx1 m1 addr payload frame sent_at now' nanos' fits undoes plain
              sent (lookup-put_self addr rx1 m.connections),
        )
