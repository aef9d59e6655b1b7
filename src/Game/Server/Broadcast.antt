-- ===== src/Game/Server/Broadcast.antt =====
-- bin/server.rs and bin/client.rs: whom the broadcast reaches, and what crosses the wire between the
-- two programs.
use riftnet_rust.Base.{
  ap, ℕ, ◌^◌, ◌<◌, ◌≡◌, inl, inr, refl, true, false, Option, none, some, List, [], ◌∷◌, arith,
  Option-cases,
}
use riftnet_rust.Base.Bytes.{to_le_bytes, from_le_bytes, take_bytes}
use riftnet_rust.Float.{F32}
use riftnet_rust.Compression.{Lz4}
use riftnet_rust.Encryption.{Aead}
use riftnet_rust.Protocol.Packet.{
  SnapshotHeader, InputPacket, general_bytes, read_general, input_bytes, general_wire, input_wire,
}
use riftnet_rust.Protocol.Packet.RoundTrip.{
  FitsSnapshotHeader, FitsInputPacket, read_input-input_bytes,
}
use riftnet_rust.Connection.Conn.{Connection, queue_pending_send, flush_unreliable}
use riftnet_rust.Connection.Table.{SocketAddr, lookup, put, Distinct, lookup-put, lookup-put_self}
use riftnet_rust.Connection.Manager.{ConnectionManager, handle_packet}
use riftnet_rust.Connection.Manager.Delivery.{Undoes, unreliable_delivered}
use riftnet_rust.Game.World.{FixedVec3, WorldState}
use riftnet_rust.Game.Sessions.{ClientSession, fresh_session, store_input, receive_input}
use riftnet_rust.Game.Client.{snapshot_packet, read_snapshot_packet}
use riftnet_rust.Game.Client.Snapshots.{FitsFixedVec3, read_snapshot_packet-snapshot_packet}
use riftnet_rust.Game.Ticks.{input_packet}
use riftnet_rust.Game.Server.{take_input, read_input_packet, snapshot_header, broadcast}
use riftnet_rust.Game.Server.Clients.{send_to_client_found}

module _ {A F : Type 0} ⦃f : F32 F⦄ where
  -- What a broadcast makes of a connection, by the session of its address.
  abbrev pub told :
      ℕ → ℕ → WorldState → Option ClientSession → Option (Connection A F) → Option (Connection A F)
  told tick hash world none c = c
  told tick hash world (some s) none = none
  told tick hash world (some s) (some c) =
      some (queue_pending_send c (snapshot_packet (snapshot_header tick hash s) world) false)

module _ {A F : Type 0} ⦃f : F32 F⦄ ⦃lz4 : Lz4⦄ ⦃aead : Aead⦄ ⦃addrs : SocketAddr A⦄ where
  -- With one session for each address, a broadcast queues the snapshot of the tick, with the last
  -- input of the session, for exactly the connections whose address has a session; it opens none
  -- and leaves the others alone.
  pub broadcast_lem :
      (now tick hash : ℕ) (world : WorldState) (sessions : List (A × ClientSession))
      (m m' : ConnectionManager A F) (a : A)
      → Distinct sessions
      → broadcast now tick hash world sessions m ≡ some m'
      → lookup a m'.connections ≡ told tick hash world (lookup a sessions) (lookup a m.connections)
  unfolding broadcast lookup
  broadcast_lem now tick hash world [] m m' a d e = ground arith
  broadcast_lem now tick hash world ((j, s) ∷ rest) m m' a d e =
      let packet = snapshot_packet (snapshot_header tick hash s) world in
      elim (Option-cases (lookup j m.connections)) [
        | inl found ↦ ground (
          arith,
          found,
          addrs.same_addr_iff j a,
          broadcast_lem now tick hash world rest m m' a d.1 (ground (arith, found)),
        )
        | inr (c, found) ↦
            (let c1 = queue_pending_send c packet false in
              let m1 : ConnectionManager A F = record { connections = put j c1 m.connections } in
              let sent = send_to_client_found m j c packet false true now found in
              ground (
                arith,
                found,
                addrs.same_addr_iff j a,
                d,
                lookup-put j a c1 m.connections,
                broadcast_lem now tick hash world rest m1 m' a d.1 (ground (arith, found, sent)),
              ))
      ]

  -- Take the frame that the server's flush sends for a snapshot packet, with fields in the range of
  -- their types and under a nonce of 64 bits. A client whose pipeline for the server undoes the
  -- server's reads from it the header of the snapshot and the first position.
  pub snapshot_delivered :
      (tx tx' rx : Connection A F) (m : ConnectionManager A F) (addr : A) (hdr : SnapshotHeader)
      (p : FixedVec3) (ps : List FixedVec3) (frame : List ℕ) (now nanos : ℕ)
      → FitsSnapshotHeader hdr
      → FitsFixedVec3 p
      → tx.tx_nonce < 2 ^ 64
      → Undoes rx.pipeline tx.pipeline
      → flush_unreliable tx (snapshot_packet hdr (record { positions = p ∷ ps }))
        ≡ some (tx', some frame)
      → lookup addr m.connections ≡ some rx
      → (m' : ConnectionManager A F) × (app_data : List ℕ) × (handle_packet m addr frame now nanos
          ≡ some (m', some app_data))
        × (read_snapshot_packet app_data ≡ some (some (hdr, p)))
  unfolding snapshot_packet general_bytes to_le_bytes
  snapshot_delivered tx tx' rx m addr hdr p ps frame now nanos vh vp fits undoes sent found = (
    record { connections = put addr (record rx { last_seen = now }) m.connections },
    snapshot_packet hdr (record { positions = p ∷ ps }),
    unreliable_delivered tx tx' rx m addr 3 _ frame now nanos (inl refl) fits undoes sent found,
    read_snapshot_packet-snapshot_packet hdr p ps vh vp,
  )

-- The server reads from the client's input packet the input.
read_input_packet-input_packet :
    (pkt : InputPacket)
    → FitsInputPacket pkt
    → read_input_packet (input_packet pkt) ≡ some (some pkt)
unfolding read_input_packet input_packet general_bytes input_bytes read_general take_bytes
    from_le_bytes to_le_bytes
read_input_packet-input_packet pkt v = ap some (read_input-input_bytes pkt [] v)

-- What a session becomes by an input, made if there is none.
abbrev pub stored_input : Option ClientSession → InputPacket → ClientSession
stored_input none pkt = store_input fresh_session pkt
stored_input (some s) pkt = store_input s pkt

module _ {A : Type 0} ⦃addrs : SocketAddr A⦄ where
  lookup-take_input :
      (addr : A) (app_data : List ℕ) (pkt : InputPacket) (sessions : List (A × ClientSession))
      → read_input_packet app_data ≡ some (some pkt)
      → (sessions' : List (A × ClientSession)) × (take_input addr (some app_data) sessions
          ≡ some sessions')
        × (lookup addr sessions' ≡ some (stored_input (lookup addr sessions) pkt))
  unfolding take_input receive_input
  lookup-take_input addr app_data pkt sessions e = elim (Option-cases (lookup addr sessions)) [
    | inl d ↦
        (let s' = store_input fresh_session pkt in
          (
            put addr s' sessions,
            rw (take_input, e, receive_input, d) refl,
            rw d (lookup-put_self addr s' sessions),
          ))
    | inr (s, d) ↦
        (let s' = store_input s pkt in
          (
            put addr s' sessions,
            rw (take_input, e, receive_input, d) refl,
            rw d (lookup-put_self addr s' sessions),
          ))
  ]

module _ {A F : Type 0} ⦃f : F32 F⦄ ⦃lz4 : Lz4⦄ ⦃aead : Aead⦄ ⦃addrs : SocketAddr A⦄ where
  -- Take the frame that a client's flush sends for an input packet, with fields in the range of
  -- their types and under a nonce of 64 bits. A server that knows the client, and whose pipeline
  -- for it undoes the client's, stores the input in the client's session, which it makes if there
  -- is none.
  pub input_delivered :
      (tx tx' rx : Connection A F) (m : ConnectionManager A F) (addr : A) (pkt : InputPacket)
      (frame : List ℕ) (sessions : List (A × ClientSession)) (now nanos : ℕ)
      → FitsInputPacket pkt
      → tx.tx_nonce < 2 ^ 64
      → Undoes rx.pipeline tx.pipeline
      → flush_unreliable tx (input_packet pkt) ≡ some (tx', some frame)
      → lookup addr m.connections ≡ some rx
      → (m' : ConnectionManager A F) × (reply : Option (List ℕ)) × (sessions' : List
          (A × ClientSession))
        × (handle_packet m addr frame now nanos ≡ some (m', reply))
        × (take_input addr reply sessions ≡ some sessions')
        × (lookup addr sessions' ≡ some (stored_input (lookup addr sessions) pkt))
  unfolding input_packet general_bytes to_le_bytes
  input_delivered tx tx' rx m addr pkt frame sessions now nanos v fits undoes sent found =
      let (sessions', taken, stored) =
        lookup-take_input addr (input_packet pkt) pkt sessions
          (read_input_packet-input_packet pkt v) in
      (
        record { connections = put addr (record rx { last_seen = now }) m.connections },
        some (input_packet pkt),
        sessions',
        unreliable_delivered tx tx' rx m addr 4 _ frame now nanos (inr refl) fits undoes sent found,
        taken,
        stored,
      )
