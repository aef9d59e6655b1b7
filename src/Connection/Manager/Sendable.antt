-- ===== src/Connection/Manager/Sendable.antt =====
-- crates/connection/src/manager.rs: the queues of the manager's connections stay such that a flush
-- of them does not panic.
use riftnet_rust.Base.{
  ℕ, ◌≡◌, inl, inr, refl, Bool, true, Option, some, List, [], ◌∷◌, ◌++◌, arith, ◌||◌, Option-cases,
  ap, ◌∙◌,
}
use riftnet_rust.Float.{F32}
use riftnet_rust.Compression.{Lz4}
use riftnet_rust.Encryption.{Aead}
use riftnet_rust.Connection.Pipeline.{secure_pipeline}
use riftnet_rust.Connection.Conn.{
  PendingSend, Connection, queue_pending_send, flush_one, flush_queue, swap_pipeline, update,
}
use riftnet_rust.Connection.Conn
use riftnet_rust.Connection.Conn.Flush.{update_panics_iff}
use riftnet_rust.Connection.Conn.Numbers.{has_header, sendable}
use riftnet_rust.Connection.Table.{SocketAddr, lookup, put, Every}
use riftnet_rust.Connection.Table.Keys.{Every-put, Every-erase, Every-lookup}
use riftnet_rust.Connection.Receive.{static_poc_key, receive_packet}
use riftnet_rust.Connection.Manager.{
  ConnectionManager, tag, new_connection, open_connection, process_disconnect, handle_packet,
  flush_connections, flush_all, send_to_client,
}
use riftnet_rust.Connection.Manager.Safety.{session_key_total, secure_pipeline_total}
use riftnet_rust.Connection.Receive.Sendable.{
  Sendable, queue_pending_send-Sendable, update-emptied, receive_packet_queue,
  dispatch_handshake-Sendable,
}

module _ {A F : Type 0} ⦃f : F32 F⦄ ⦃lz4 : Lz4⦄ ⦃aead : Aead⦄ ⦃addrs : SocketAddr A⦄ where
  open_connection-Sendable :
      (m : ConnectionManager A F) (addr : A) (now nanos : ℕ) (c : Connection A F)
      → Every Sendable m.connections
      → open_connection m addr now nanos ≡ some c
      → Sendable c
  unfolding open_connection new_connection Conn.new
  open_connection-Sendable m addr now nanos c ready e =
      elim (Option-cases (lookup addr m.connections)) [
        | inr (found, d) ↦ ground (arith, d, Every-lookup Sendable addr found m.connections ready d)
        | inl d ↦ elim (Option-cases (secure_pipeline static_poc_key)) [
          | inl d' ↦ absurd (ground (arith, d, d'))
          | inr (p, d') ↦
              (let fresh : Connection A F = record (Conn.new now addr true p) { last_seen = now } in
                let (key, made, len) = session_key_total (addrs.ip_string addr) nanos in
                dispatch_handshake-Sendable fresh c key (ground (arith, d, d', made)) refl)
        ]
      ]

  -- A packet leaves every queue such that its flush does not panic.
  pub handle_packet-Sendable :
      (m m' : ConnectionManager A F) (addr : A) (bytes : List ℕ) (now nanos : ℕ)
      (reply : Option (List ℕ))
      → Every Sendable m.connections
      → handle_packet m addr bytes now nanos ≡ some (m', reply)
      → Every Sendable m'.connections
  unfolding handle_packet process_disconnect
  handle_packet-Sendable m m' addr bytes now nanos reply ready e =
      elim (Option-cases (open_connection m addr now nanos)) [
        | inl d ↦ absurd (ground (arith, d))
        | inr (c, d) ↦ elim (Option-cases (receive_packet c now bytes)) [
          | inl d' ↦ absurd (ground (arith, d, d'))
          | inr ((c', v), d') ↦
              (let queue = receive_packet_queue c c' now bytes v d' in
                let opened = open_connection-Sendable m addr now nanos c ready d in
                let kept : Every Sendable (put addr c' m.connections) =
                  Every-put Sendable addr c' m.connections (ap sendable queue ∙ opened) ready in
                ground
                  (arith, d, d', kept, Every-erase Sendable addr (put addr c' m.connections) kept))
        ]
      ]

  -- A flush of such queues does not panic, and leaves such queues.
  pub flush_connections-Sendable :
      (now : ℕ) (conns : List (A × Connection A F))
      → Every Sendable conns
      → (conns' : List (A × Connection A F)) × (sent : List (List ℕ × A)) × (flush_connections now
            conns
          ≡ some (conns', sent))
        × Every Sendable conns'
  unfolding flush_connections
  flush_connections-Sendable now [] ready = ([], [], refl, tt)
  flush_connections-Sendable now ((a, c) ∷ rest) ready = elim (Option-cases (update c now)) [
    | inl d ↦ absurd (ground (arith, ready.0, update_panics_iff c now))
    | inr ((c', out), d) ↦
        (let (rest', sent, e, ready') = flush_connections-Sendable now rest ready.1 in
          (
            (a, c') ∷ rest',
            tag a out ++ sent,
            rw (flush_connections, d, e) refl,
            (ap sendable (update-emptied c c' now out d), ready'),
          ))
  ]

  pub flush_all_total :
      (m : ConnectionManager A F) (now : ℕ)
      → Every Sendable m.connections
      → (m' : ConnectionManager A F) × (sent : List (List ℕ × A)) × (flush_all m now
          ≡ some (m', sent))
        × Every Sendable m'.connections
  unfolding flush_all
  flush_all_total m now ready =
      let (conns, sent, e, ready') = flush_connections-Sendable now m.connections ready in
      (record { connections = conns }, sent, rw (flush_all, e) refl, ready')

  -- So does a send, to a known address or a new one, if what is sent unreliably is not empty.
  pub send_to_client_total :
      (m : ConnectionManager A F) (addr : A) (bytes : List ℕ) (reliable is_server : Bool) (now : ℕ)
      → (reliable || has_header bytes) ≡ true
      → Every Sendable m.connections
      → (m' : ConnectionManager A F) × (send_to_client m addr bytes reliable is_server now
          ≡ some m')
        × Every Sendable m'.connections
  unfolding send_to_client new_connection Conn.new
  send_to_client_total m addr bytes reliable is_server now whole ready =
      let queued : (c : Connection A F)
          → Sendable c
          → Every Sendable (put addr (queue_pending_send c bytes reliable) m.connections) =
        λ c s.
          Every-put Sendable addr (queue_pending_send c bytes reliable) m.connections
            (queue_pending_send-Sendable c bytes reliable whole s) ready in
      elim (Option-cases (lookup addr m.connections)) [
        | inr (c, d) ↦ (
          record { connections = put addr (queue_pending_send c bytes reliable) m.connections },
          rw (send_to_client, d) refl,
          queued c (Every-lookup Sendable addr c m.connections ready d),
        )
        | inl d ↦
            (let (p, e) = secure_pipeline_total static_poc_key refl in
              let c : Connection A F = Conn.new now addr is_server p in
              (
                record {
                  connections = put addr (queue_pending_send c bytes reliable) m.connections;
                },
                rw (send_to_client, new_connection, d, e) refl,
                queued c refl,
              ))
      ]
