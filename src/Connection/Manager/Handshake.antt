-- ===== src/Connection/Manager/Handshake.antt =====
-- crates/connection/src/manager.rs: the handshake, from the server's first sight of a client to the
-- client's change of pipeline.
use riftnet_rust.Base.{
  ℕ, ◌+◌, ◌-◌, ◌^◌, ◌≡◌, inl, inr, refl, ◌∙◌, sym, true, none, some, List, [], ◌∷◌, arith, length,
  ap,
}
use riftnet_rust.Base.Bits.{u64}
use riftnet_rust.Protocol.Reliable
use riftnet_rust.Base.Bytes.{to_le_bytes, from_le_bytes, take_bytes}
use riftnet_rust.Core.{Result-cases}
use riftnet_rust.Float.{F32}
use riftnet_rust.Compression.{Lz4, IsLz4}
use riftnet_rust.Encryption.{Aead, IsAead}
use riftnet_rust.Protocol.Packet.{
  HandshakePacket, read_general, general_bytes, handshake_bytes, read_handshake,
}
use riftnet_rust.Protocol.Packet.RoundTrip.{read_handshake-handshake_bytes}
use riftnet_rust.Protocol.Reliable.{ReliableConnectionState, process_retransmissions, resend_loop}
use riftnet_rust.Connection.Pipeline.{NetworkPipeline, secure_pipeline}
use riftnet_rust.Connection.Pipeline.RoundTrip.{secure_pipeline-RoundTrips}
use riftnet_rust.Connection.Conn.{
  Connection, queue_pending_send, update, flush_queue, flush_one, flush_reliable, swap_pipeline,
}
use riftnet_rust.Connection.Conn
use riftnet_rust.Connection.Table.{SocketAddr, lookup, put, lookup-put_self}
use riftnet_rust.Connection.Receive.{
  static_poc_key, session_key, read_inner_handshake, take_payload, dispatch_handshake,
}
use riftnet_rust.Connection.Manager.{
  ConnectionManager, new_connection, open_connection, handle_packet,
}
use riftnet_rust.Connection.Manager.Delivery.{Undoes}
use riftnet_rust.Connection.Manager.ReliableDelivery.{
  next_header, note_header, receive_packet-flushed,
}
use riftnet_rust.Connection.Manager.Safety.{session_key_total, secure_pipeline_total}
use mathlib.Core.List.{append-nil}
use mathlib.Core.Path.{subst}

-- The bytes of a handshake are read back as the handshake.
read_inner_handshake-handshake :
    (hs : HandshakePacket)
    → length hs.session_key ≡ 32
    → read_inner_handshake (1 ∷ handshake_bytes hs) ≡ some (some hs)
unfolding read_inner_handshake handshake_bytes read_general take_bytes from_le_bytes
read_inner_handshake-handshake hs len = rw len (
    ap (λ b. some (read_handshake b)) (sym (append-nil (handshake_bytes hs)))
    ∙ ap some (read_handshake-handshake_bytes hs [] len))

module _ {A F : Type 0} ⦃f : F32 F⦄ ⦃lz4 : Lz4⦄ ⦃aead : Aead⦄ ⦃addrs : SocketAddr A⦄ where
  -- A fresh connection with the handshake of a key in its queue.
  abbrev pub greeting : ℕ → A → NetworkPipeline → NetworkPipeline → List ℕ → Connection A F
  greeting now client p0 p key = record (Conn.new now client true p0) {
    pending_queue = record { payload = 1 ∷ key; reliable = true } ∷ [];
    pending_bytes = 33;
    handshake_sent = true;
    pending_pipeline_swap = some p;
  }

  pub open_connection-new :
      (m : ConnectionManager A F) (client : A) (sc : Connection A F) (now nanos : ℕ)
      (p0 p : NetworkPipeline) (key : List ℕ)
      → lookup client m.connections ≡ none
      → secure_pipeline static_poc_key ≡ some p0
      → session_key (addrs.ip_string client) nanos ≡ some key
      → length key ≡ 32
      → secure_pipeline key ≡ some p
      → open_connection m client now nanos ≡ some (greeting now client p0 p key)
  unfolding open_connection new_connection dispatch_handshake queue_pending_send general_bytes
      handshake_bytes to_le_bytes Conn.new
  open_connection-new m client sc now nanos p0 p key fresh e0 made len e =
      rw
        (
          open_connection, new_connection, dispatch_handshake, queue_pending_send, fresh, e0, made,
          e, len,
        )
        refl

  -- That connection when the flush has taken the handshake from its queue.
  abbrev pub greeting_flushed : ℕ → A → NetworkPipeline → NetworkPipeline → List ℕ → Connection A F
  greeting_flushed now client p0 p key = record (greeting now client p0 p key) {
    pending_queue = [];
    pending_bytes = u64 (33 + 2 ^ 64 - length (1 ∷ key));
  }

  update-greeting :
      (now now' : ℕ) (client : A) (p0 p : NetworkPipeline) (key frame : List ℕ)
      (sc : Connection A F) (rest : List (List ℕ))
      → update (greeting now client p0 p key) now' ≡ some (sc, frame ∷ rest)
      → (sc.pipeline ≡ p)
        × (tx : Connection A F) × (flush_reliable
              (greeting_flushed now client p0 p key)
              now'
              (1 ∷ key)
            ≡ (tx, some frame))
  unfolding update flush_queue flush_one flush_reliable swap_pipeline process_retransmissions
      resend_loop Conn.new Reliable.new
  update-greeting now now' client p0 p key frame sc rest e =
      elim (Result-cases (p0.process (1 ∷ key) 1)) [
        | inl (encrypted, d) ↦ (
          ground (arith, d),
          (flush_reliable (greeting_flushed now client p0 p key) now' (1 ∷ key)).0,
          ground (arith, d),
        )
        | inr (fault, d) ↦ absurd (ground (arith, d))
      ]

  -- A client that knows the server, and whose pipeline undoes the one that the greeting is sent
  -- through, takes the key from the greeting.
  receive-greeting :
      (m : ConnectionManager A F) (cli tx : Connection A F) (client server : A)
      (now now' now'' nanos : ℕ) (p0 p : NetworkPipeline) (key frame : List ℕ)
      → length key ≡ 32
      → secure_pipeline key ≡ some p
      → Undoes cli.pipeline p0
      → lookup server m.connections ≡ some cli
      → flush_reliable (greeting_flushed now client p0 p key) now' (1 ∷ key) ≡ (tx, some frame)
      → handle_packet m server frame now'' nanos
        ≡ some (
          record {
            connections =
                put server
                  (record (note_header
                    (record cli { last_seen = now'' })
                    (next_header (greeting_flushed now client p0 p key))
                    now'') { is_authenticated = true; pipeline = p })
                  m.connections;
          },
          none,
        )
  unfolding handle_packet open_connection take_payload handshake_bytes Conn.new Reliable.new
  receive-greeting m cli tx client server now now' now'' nanos p0 p key frame len made undoes found
        sent =
      rw
        (
          handle_packet,
          open_connection,
          found,
          receive_packet-flushed (greeting_flushed now client p0 p key) tx
              (record cli { last_seen = now'' }) (1 ∷ key) frame now' now''
              (record {
                sequence_fits = omega arith;
                ack_fits = omega arith;
                ack_bitfield_fits = omega arith;
              })
              undoes sent,
          take_payload,
          read_inner_handshake-handshake (record { session_key = key }) len,
          made,
        )
        refl

  -- Under the laws of LZ4 and of the cipher: a server opens a connection for a client that it does
  -- not know, its flush sends the greeting first, and the greeting reaches a client that knows the
  -- server and still has the pipeline of the initial key. Then both have the pipeline of the
  -- session key that the server made, the client is authenticated, and no bytes go to the client's
  -- caller.
  pub handshake_agrees :
      (lz4_laws : IsLz4 lz4) (aead_laws : IsAead aead) (ms mc : ConnectionManager A F)
      (client server : A) (cli sc sc' : Connection A F) (frame : List ℕ) (rest : List (List ℕ))
      (now nanos now' now'' nanos'' : ℕ)
      → lookup client ms.connections ≡ none
      → open_connection ms client now nanos ≡ some sc
      → update sc now' ≡ some (sc', frame ∷ rest)
      → lookup server mc.connections ≡ some cli
      → secure_pipeline static_poc_key ≡ some cli.pipeline
      → (m : ConnectionManager A F) × (cli' : Connection A F) × (key : List ℕ) × (handle_packet mc
            server frame now'' nanos''
          ≡ some (m, none))
        × (lookup server m.connections ≡ some cli')
        × (cli'.is_authenticated ≡ true)
        × (session_key (addrs.ip_string client) nanos ≡ some key)
        × (secure_pipeline key ≡ some sc'.pipeline)
        × (cli'.pipeline ≡ sc'.pipeline)
  handshake_agrees lz4_laws aead_laws ms mc client server cli sc sc' frame rest now nanos now' now''
        nanos'' fresh opened flushed found static =
      let (key, keyed, len) = session_key_total (addrs.ip_string client) nanos in
      let (p, made) = secure_pipeline_total key len in
      let opened' =
        open_connection-new ms client sc now nanos cli.pipeline p key fresh static keyed len made in
      let q : sc ≡ greeting now client cli.pipeline p key = ground (arith, opened') in
      let (swapped, tx, sent) =
        update-greeting now now' client cli.pipeline p key frame sc' rest
          (subst (λ s. update s now' ≡ some (sc', frame ∷ rest)) q flushed) in
      let handled =
        receive-greeting mc cli tx client server now now' now'' nanos'' cli.pipeline p key frame len
          made (secure_pipeline-RoundTrips lz4_laws aead_laws static_poc_key cli.pipeline static)
          found sent in
      (
        _,
        _,
        key,
        handled,
        lookup-put_self server _ mc.connections,
        refl,
        keyed,
        rw swapped made,
        sym swapped,
      )
