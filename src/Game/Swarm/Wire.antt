-- ===== src/Game/Swarm/Wire.antt =====
-- bin/client_swarm.rs: what crosses the wire between the swarm and the server.
use riftnet_rust.Base.{
  refl, ◌∙◌, inl, inr, ℕ, ◌^◌, ◌<◌, ◌≤◌, ◌≡◌, inl, inr, refl, none, some, List, [], ◌∷◌, ◌++◌,
  length, ◌==◌, arith, Option-cases, Bool-cases, length-append,
}
use riftnet_rust.Base.Bytes.{
  to_le_bytes, from_le_bytes, take_bytes, read_le-append, length-to_le_bytes,
}
use riftnet_rust.Float.{F32}
use riftnet_rust.Compression.{Lz4}
use riftnet_rust.Encryption.{Aead, RefusesShort, Cipher, decrypt}
use riftnet_rust.Encryption
use riftnet_rust.Core.{err, encryption_error}
use riftnet_rust.Protocol.Packet.{
  SnapshotHeader, read_snapshot, read_general, general_bytes, input_bytes,
}
use riftnet_rust.Protocol.Packet.RoundTrip.{read_snapshot-none}
use riftnet_rust.Connection.Conn.{Connection, flush_unreliable}
use riftnet_rust.Connection.Pipeline.{
  NetworkPipeline, secure_pipeline, secure_inverse_process, nonce_bytes,
}
use riftnet_rust.Connection.Table.{SocketAddr, lookup, put}
use riftnet_rust.Connection.Receive.{receive_unreliable, receive_packet}
use riftnet_rust.Connection.Manager.{ConnectionManager, handle_packet}
use riftnet_rust.Connection.Manager.Delivery.{handle_packet-answer, flush_unreliable-frame}
use riftnet_rust.Game.Ticks.{find_time}
use riftnet_rust.Protocol.History.Lookup.{IsRing, in_bounds-IsRing}
use riftnet_rust.Game.Swarm.{SwarmClient, note_snapshot, correct, process_packet, prepare_packet}
use riftnet_rust.Game.Ticks.{input_packet}

read_snapshot_tick :
    (nonce : ℕ) (rest : List ℕ) (snap : SnapshotHeader)
    → nonce < 2 ^ 64
    → read_snapshot (to_le_bytes 8 nonce ++ rest) ≡ some snap
    → snap.tick ≡ nonce
unfolding read_snapshot
read_snapshot_tick nonce rest snap fits e = ground (arith, e, read_le-append 8 nonce rest fits)

module _ {F : Type 0} where
  note_snapshot_tick :
      (c : SwarmClient F) (now : ℕ) (snap : SnapshotHeader)
      → (note_snapshot c now snap).last_server_tick ≡ snap.tick
  unfolding note_snapshot
  note_snapshot_tick c now snap =
      elim (Option-cases (find_time snap.last_input_tick c.input_dispatch_times)) [
        | inl d ↦ rw (note_snapshot, d) refl
        | inr (sent, d) ↦ rw (note_snapshot, d) refl
      ]

  note_snapshot-IsRing :
      (c : SwarmClient F) (now : ℕ) (snap : SnapshotHeader)
      → IsRing c.history
      → IsRing (note_snapshot c now snap).history
  unfolding note_snapshot
  note_snapshot-IsRing c now snap ring =
      elim (Option-cases (find_time snap.last_input_tick c.input_dispatch_times)) [
        | inl d ↦ rw (note_snapshot, d) ring
        | inr (sent, d) ↦ rw (note_snapshot, d) ring
      ]

  correct_tick :
      (c : SwarmClient F) (snap : SnapshotHeader)
      → IsRing c.history
      → (c' : SwarmClient F) × (correct c snap ≡ some c')
        × (c'.last_server_tick ≡ c.last_server_tick)
  unfolding correct
  correct_tick c snap ring =
      let inside = in_bounds-IsRing c.history snap.tick ring in
      elim (Option-cases (correct c snap)) [
        | inl d ↦ absurd (ground (arith, inside, d))
        | inr (c', d) ↦ (c', d, ground (arith, inside, d))
      ]

  process_packet_tick :
      (c : SwarmClient F) (now code nonce : ℕ) (rest : List ℕ)
      → IsRing c.history
      → nonce < 2 ^ 64
      → 16 ≤ length rest
      → (c' : SwarmClient F) × (process_packet c now (code ∷ (to_le_bytes 8 nonce ++ rest))
          ≡ some c')
        × (c'.last_server_tick ≡ nonce)
  unfolding process_packet take_bytes
  process_packet_tick c now code nonce rest ring fits long =
      elim (Option-cases (read_snapshot (to_le_bytes 8 nonce ++ rest))) [
        | inl d ↦ absurd (
            ground (
              arith,
              d,
              read_snapshot-none (to_le_bytes 8 nonce ++ rest),
              length-append (to_le_bytes 8 nonce) rest,
              length-to_le_bytes 8 nonce,
            ))
        | inr (snap, d) ↦
            (let (c', e, noted) =
                correct_tick (note_snapshot c now snap) snap
                  (note_snapshot-IsRing c now snap ring) in
              (
                c',
                ground (
                  arith,
                  d,
                  e,
                  length-append (to_le_bytes 8 nonce) rest,
                  length-to_le_bytes 8 nonce,
                ),
                noted ∙ (note_snapshot_tick c now snap ∙ read_snapshot_tick nonce rest snap fits d),
              ))
      ]

-- A client of the swarm, with a history of a power of two of slots, takes the nonce of a frame for
-- a tick and does not panic: whatever unreliable payload the
-- server sends it, if the frame has at least the 25 bytes that it asks for and the nonce 64 bits,
-- the client's tick of the server is the nonce afterwards.
pub swarm_reads_nonce :
    {A F G : Type 0} ⦃f : F32 F⦄ ⦃lz4 : Lz4⦄ ⦃aead : Aead⦄ (tx tx' : Connection A F)
    (c : SwarmClient G) (code now : ℕ) (body frame : List ℕ)
    → IsRing c.history
    → tx.tx_nonce < 2 ^ 64
    → flush_unreliable tx (code ∷ body) ≡ some (tx', some frame)
    → 25 ≤ length frame
    → (c' : SwarmClient G) × (process_packet c now frame ≡ some c')
      × (c'.last_server_tick ≡ tx.tx_nonce)
swarm_reads_nonce tx tx' c code now body frame ring fits sent long =
    let (encrypted, _, q) = flush_unreliable-frame tx tx' code body frame sent in
    rw q (
      process_packet_tick c now code tx.tx_nonce encrypted ring fits (
        ground (
          arith,
          q,
          long,
          length-append (to_le_bytes 8 tx.tx_nonce) encrypted,
          length-to_le_bytes 8 tx.tx_nonce,
        )))

module _ ⦃lz4 : Lz4⦄ ⦃aead : Aead⦄ where
  short_refused :
      (key bytes : List ℕ) (nonce : ℕ) (p : NetworkPipeline)
      → RefusesShort aead
      → secure_pipeline key ≡ some p
      → length bytes < 16
      → p.inverse_process bytes nonce ≡ err encryption_error
  unfolding secure_pipeline secure_inverse_process decrypt Encryption.new
  short_refused key bytes nonce p law e short = elim (Bool-cases (length key == 32)) [
    | inr d ↦ absurd (ground (arith, d, e))
    | inl d ↦ ground (arith, d, e, law.open_short key (nonce_bytes nonce) [] bytes short)
  ]

  module _ {A F G : Type 0} ⦃f : F32 F⦄ ⦃addrs : SocketAddr A⦄ where
    -- A server does not hear the swarm: to a peer that it knows, under a pipeline that encrypts,
    -- the packet of a client of the swarm only shows that the peer is alive, and nothing is handed
    -- over. The cipher is one that refuses what is shorter than its tag.
    pub swarm_unheard :
        (c : SwarmClient G) (m : ConnectionManager A F) (addr : A) (rx : Connection A F)
        (key : List ℕ) (now nanos : ℕ)
        → RefusesShort aead
        → secure_pipeline key ≡ some rx.pipeline
        → lookup addr m.connections ≡ some rx
        → handle_packet m addr (prepare_packet c) now nanos
          ≡ some (
            record { connections = put addr (record rx { last_seen = now }) m.connections },
            none,
          )
    unfolding prepare_packet input_packet receive_packet receive_unreliable read_general take_bytes
        from_le_bytes general_bytes input_bytes to_le_bytes
    swarm_unheard c m addr rx key now nanos law secure found =
        handle_packet-answer m addr rx (prepare_packet c) now nanos none found (
          rw
            (short_refused key (1 ∷ 0 ∷ 0 ∷ 0 ∷ []) (from_le_bytes (to_le_bytes 8 c.predicted_tick))
              rx.pipeline law secure (omega arith))
            refl)
