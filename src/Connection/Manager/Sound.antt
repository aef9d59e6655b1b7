-- ===== src/Connection/Manager/Sound.antt =====
-- crates/connection/src/manager.rs: the operations keep a connection sound.
use riftnet_rust.Base.{
  none, ℕ, ◌^◌, ◌<◌, ◌≡◌, inl, inr, sym, Bool, true, some, List, ◌++◌, length, arith, Option-cases,
  Bool-cases,
}
use riftnet_rust.Base.Bytes.{to_le_bytes}
use riftnet_rust.Float.{F32}
use riftnet_rust.Compression.{Lz4}
use riftnet_rust.Encryption.{Aead}
use riftnet_rust.Protocol.Packet.{general_bytes, handshake_bytes}
use riftnet_rust.Protocol.Reliable
use riftnet_rust.Protocol.Reliable.{process_incoming_header}
use riftnet_rust.Protocol.Reliable.Incoming.{process_incoming_header_lem}
use riftnet_rust.Connection.Pipeline.{NetworkPipeline, secure_pipeline}
use riftnet_rust.Connection.Conn.{Connection, queue_pending_send, update}
use riftnet_rust.Connection.Conn
use riftnet_rust.Connection.Conn.Queue.{IsValid, new-IsValid, queue_pending_send_lem}
use riftnet_rust.Connection.Conn.Flush.{update_panics_iff, update-Updated}
use riftnet_rust.Connection.Conn.Numbers.{sendable}
use riftnet_rust.Connection.Table.{SocketAddr, lookup, Every}
use riftnet_rust.Connection.Table.Keys.{Every-lookup}
use riftnet_rust.Connection.Receive.{
  Verdict, read_inner_handshake, take_payload, receive_body, receive_reliable, receive_unreliable,
  receive_packet, dispatch_handshake, static_poc_key,
}
use riftnet_rust.Connection.Manager.{ConnectionManager, new_connection, open_connection}
use riftnet_rust.Connection.Manager.Safety.{session_key_total}

-- A connection whose queue is counted, with counters in the range of their types.
pub record IsSound {A F : Type 0} (c : Connection A F) : Type 0 where
  pub valid : IsValid c
  pub next_fits : c.state.next_outgoing_sequence < 2 ^ 16
  pub nonce_fits : c.tx_nonce < 2 ^ 64

length-handshake :
    (key : List ℕ)
    → length key ≡ 32
    → length (
        general_bytes (record { packet_type = 1 })
        ++ handshake_bytes (record { session_key = key }))
      < 2 ^ 63
unfolding general_bytes handshake_bytes to_le_bytes
length-handshake key e = omega (arith, e)

-- What a packet leaves of the sending side.
pub record Kept {A F : Type 0} (c c' : Connection A F) : Type 0 where
  pub same_queue : c'.pending_queue ≡ c.pending_queue
  pub same_bytes : c'.pending_bytes ≡ c.pending_bytes
  pub same_limit : c'.max_pending_bytes ≡ c.max_pending_bytes
  pub same_next : c'.state.next_outgoing_sequence ≡ c.state.next_outgoing_sequence
  pub same_nonce : c'.tx_nonce ≡ c.tx_nonce

module _ {A F : Type 0} where
  pub Kept-IsSound : (c c' : Connection A F) → Kept c c' → IsSound c → IsSound c'
  Kept-IsSound c c' k s = record {
    valid = ground (arith, k, s.valid);
    next_fits = ground (arith, k, s.next_fits);
    nonce_fits = ground (arith, k, s.nonce_fits);
  }

module _ {A F : Type 0} ⦃f : F32 F⦄ where
  new-IsSound :
      (now : ℕ) (a : A) (is_server : Bool) (p : NetworkPipeline)
      → IsSound {F = F} (Conn.new now a is_server p)
  unfolding Conn.new Reliable.new
  new-IsSound now a is_server p = record {
    valid = new-IsValid now a is_server p;
    next_fits = omega arith;
    nonce_fits = ground arith;
  }

  pub queue_pending_send-IsSound :
      (c : Connection A F) (payload : List ℕ) (reliable : Bool)
      → length payload < 2 ^ 63
      → IsSound c
      → IsSound (queue_pending_send c payload reliable)
  unfolding queue_pending_send
  queue_pending_send-IsSound c payload reliable small s = record {
    valid = (queue_pending_send_lem c payload reliable s.valid small).0;
    next_fits = ground (arith, s.next_fits);
    nonce_fits = ground (arith, s.nonce_fits);
  }

  pub update-IsSound :
      (c c' : Connection A F) (now : ℕ) (sent : List (List ℕ))
      → update c now ≡ some (c', sent)
      → IsSound c
      → IsSound c'
  update-IsSound c c' now sent e s = elim (Bool-cases (sendable c.pending_queue)) [
    | inr d ↦ absurd (ground (arith, d, e, update_panics_iff c now))
    | inl d ↦
        (let (c1, sent1, e1, up, _) = update-Updated c now s.valid s.next_fits s.nonce_fits d in
          let same : c1 ≡ c' = ground (arith, e, e1) in
          rw (sym same) (record {
            valid = up.valid;
            next_fits = omega (arith, up.next);
            nonce_fits = omega (arith, up.nonce);
          }))
  ]

module _ {A F : Type 0} ⦃f : F32 F⦄ ⦃lz4 : Lz4⦄ ⦃aead : Aead⦄ where
  take_payload-Kept :
      (c c' : Connection A F) (bytes : List ℕ) (v : Verdict)
      → take_payload c bytes ≡ some (c', v)
      → Kept c c'
  unfolding take_payload
  take_payload-Kept c c' bytes v e = elim (Option-cases (read_inner_handshake bytes)) [
    | inl d ↦ absurd (ground (arith, d))
    | inr (none, d) ↦ ground (arith, d)
    | inr (some hs, d) ↦ elim (Option-cases (secure_pipeline hs.session_key)) [
      | inl d' ↦ absurd (ground (arith, d, d'))
      | inr (p, d') ↦ ground (arith, d, d')
    ]
  ]

  receive_reliable-Kept :
      (c c' : Connection A F) (now : ℕ) (bytes : List ℕ) (v : Verdict)
      → receive_reliable c now bytes ≡ some (c', v)
      → Kept c c'
  unfolding receive_reliable receive_body
  receive_reliable-Kept c c' now bytes v e =
      grind (arith, take_payload-Kept, process_incoming_header_lem)

  pub receive_packet-Kept :
      (c c' : Connection A F) (now : ℕ) (bytes : List ℕ) (v : Verdict)
      → receive_packet c now bytes ≡ some (c', v)
      → Kept c c'
  unfolding receive_packet receive_unreliable
  receive_packet-Kept c c' now bytes v e = ground (arith, receive_reliable-Kept c c' now bytes v)

  dispatch_handshake-IsSound :
      (c c' : Connection A F) (key : List ℕ)
      → length key ≡ 32
      → dispatch_handshake c key ≡ some c'
      → IsSound c
      → IsSound c'
  unfolding dispatch_handshake
  dispatch_handshake-IsSound c c' key len e s = elim (Option-cases (secure_pipeline key)) [
    | inl d ↦ absurd (ground (arith, d, e))
    | inr (p, d) ↦
        (let handshake =
            general_bytes (record { packet_type = 1 })
            ++ handshake_bytes (record { session_key = key }) in
          let s' = queue_pending_send-IsSound c handshake true (length-handshake key len) s in
          Kept-IsSound (queue_pending_send c handshake true) c' (ground (arith, d, e)) s')
  ]

  module _ ⦃addrs : SocketAddr A⦄ where
    pub new_connection-IsSound :
        (now : ℕ) (a : A) (is_server : Bool) (c : Connection A F)
        → new_connection now a is_server ≡ some c
        → IsSound c
    unfolding new_connection
    new_connection-IsSound now a is_server c e =
        elim (Option-cases (secure_pipeline static_poc_key)) [
          | inl d ↦ absurd (ground (arith, d, e))
          | inr (p, d) ↦
              (let same : Conn.new now a is_server p ≡ c = ground (arith, d, e) in
                rw (sym same) (new-IsSound now a is_server p))
        ]

    pub open_connection-IsSound :
        (m : ConnectionManager A F) (a : A) (now nanos : ℕ) (c : Connection A F)
        → Every IsSound m.connections
        → open_connection m a now nanos ≡ some c
        → IsSound c
    unfolding open_connection
    open_connection-IsSound m a now nanos c sound e = elim (Option-cases (lookup a m.connections)) [
      | inr (c0, d) ↦
          Kept-IsSound c0 c (ground (arith, d, e)) (Every-lookup IsSound a c0 m.connections sound d)
      | inl d ↦ elim (Option-cases (new_connection {F = F} now a true)) [
        | inl d' ↦ absurd (ground (arith, d, d', e))
        | inr (c0, d') ↦
            (let (key, made, len) = session_key_total (addrs.ip_string a) nanos in
              dispatch_handshake-IsSound (record c0 { last_seen = now }) c key len
                (ground (arith, d, d', made, e))
                (Kept-IsSound c0 (record c0 { last_seen = now }) (ground arith)
                  (new_connection-IsSound now a true c0 d')))
      ]
    ]
