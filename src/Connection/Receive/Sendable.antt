-- ===== src/Connection/Receive/Sendable.antt =====
-- crates/connection/src/manager.rs and connection.rs: the queue of a connection stays such that a
-- flush of it does not panic.
use riftnet_rust.Base.{
  none, ℕ, ◌≡◌, inl, inr, refl, Bool, true, some, List, [], ◌∷◌, ◌++◌, arith, ◌||◌, ◌&&◌,
  Option-cases,
}
use riftnet_rust.Float.{F32}
use riftnet_rust.Compression.{Lz4}
use riftnet_rust.Encryption.{Aead}
use riftnet_rust.Protocol.Reliable.{process_retransmissions}
use riftnet_rust.Protocol.Packet.{general_bytes, handshake_bytes}
use riftnet_rust.Connection.Pipeline.{secure_pipeline}
use riftnet_rust.Connection.Conn.{
  PendingSend, Connection, queue_pending_send, flush_queue, swap_pipeline, update,
}
use riftnet_rust.Connection.Conn.Numbers.{flush_queue-cons}
use riftnet_rust.Connection.Conn.Numbers.{has_header, sendable}
use riftnet_rust.Connection.Receive.{
  Verdict, read_inner_handshake, take_payload, receive_body, receive_reliable, receive_unreliable,
  receive_packet, dispatch_handshake,
}

sendable-append :
    (q : List PendingSend) (ps : PendingSend)
    → sendable (q ++ (ps ∷ [])) ≡ (sendable q && (ps.reliable || has_header ps.payload))
sendable-append [] ps = ground arith
sendable-append (x ∷ q) ps = ground (arith, sendable-append q ps)

-- A flush of the connection does not panic.
abbrev pub Sendable : {A F : Type 0} → Connection A F → Type 0
Sendable c = sendable c.pending_queue ≡ true

module _ {A F : Type 0} ⦃f : F32 F⦄ where
  pub queue_pending_send-Sendable :
      (c : Connection A F) (payload : List ℕ) (reliable : Bool)
      → (reliable || has_header payload) ≡ true
      → Sendable c
      → Sendable (queue_pending_send c payload reliable)
  unfolding queue_pending_send
  queue_pending_send-Sendable c payload reliable whole s =
      ground
        (arith, sendable-append c.pending_queue (record { payload = payload; reliable = reliable }))

  flush_queue-emptied :
      (q : List PendingSend) (c c' : Connection A F) (now : ℕ) (sent : List (List ℕ))
      → flush_queue c now q ≡ some (c', sent)
      → c'.pending_queue ≡ []
  unfolding flush_queue
  flush_queue-emptied [] c c' now sent e = ground arith
  flush_queue-emptied (ps ∷ rest) c c' now sent e =
      let (m, out, sent', first, others, _) = flush_queue-cons c c' now ps rest sent e in
      flush_queue-emptied rest m c' now sent' others

  -- After a flush the queue is empty.
  pub update-emptied :
      (c c' : Connection A F) (now : ℕ) (sent : List (List ℕ))
      → update c now ≡ some (c', sent)
      → c'.pending_queue ≡ []
  unfolding update swap_pipeline
  update-emptied c c' now sent e =
      let base = record c { state = (process_retransmissions c.state now).0 } in
      elim (Option-cases (flush_queue base now c.pending_queue)) [
        | inl d ↦ absurd (ground (arith, d))
        | inr ((m, out), d) ↦
            ground (arith, d, flush_queue-emptied c.pending_queue base m now out d)
      ]

module _ {A F : Type 0} ⦃f : F32 F⦄ ⦃lz4 : Lz4⦄ ⦃aead : Aead⦄ where
  take_payload_queue :
      (c c' : Connection A F) (bytes : List ℕ) (v : Verdict)
      → take_payload c bytes ≡ some (c', v)
      → c'.pending_queue ≡ c.pending_queue
  unfolding take_payload
  take_payload_queue c c' bytes v e = elim (Option-cases (read_inner_handshake bytes)) [
    | inl d ↦ absurd (ground (arith, d))
    | inr (none, d) ↦ ground (arith, d)
    | inr (some hs, d) ↦ elim (Option-cases (secure_pipeline hs.session_key)) [
      | inl d' ↦ absurd (ground (arith, d, d'))
      | inr (p, d') ↦ ground (arith, d, d')
    ]
  ]

  receive_reliable_queue :
      (c c' : Connection A F) (now : ℕ) (bytes : List ℕ) (v : Verdict)
      → receive_reliable c now bytes ≡ some (c', v)
      → c'.pending_queue ≡ c.pending_queue
  unfolding receive_reliable receive_body
  receive_reliable_queue c c' now bytes v e = grind (arith, take_payload_queue)

  -- A packet queues nothing.
  pub receive_packet_queue :
      (c c' : Connection A F) (now : ℕ) (bytes : List ℕ) (v : Verdict)
      → receive_packet c now bytes ≡ some (c', v)
      → c'.pending_queue ≡ c.pending_queue
  unfolding receive_packet receive_unreliable
  receive_packet_queue c c' now bytes v e = ground (arith, receive_reliable_queue c c' now bytes v)

  pub dispatch_handshake-Sendable :
      (c c' : Connection A F) (key : List ℕ)
      → dispatch_handshake c key ≡ some c'
      → Sendable c
      → Sendable c'
  unfolding dispatch_handshake
  dispatch_handshake-Sendable c c' key e s =
      let handshake =
        general_bytes (record { packet_type = 1 })
        ++ handshake_bytes (record { session_key = key }) in
      elim (Option-cases (secure_pipeline key)) [
        | inl d ↦ absurd (ground (arith, d))
        | inr (p, d) ↦ ground (arith, d, queue_pending_send-Sendable c handshake true refl s)
      ]
