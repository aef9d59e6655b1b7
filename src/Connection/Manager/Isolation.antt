-- ===== src/Connection/Manager/Isolation.antt =====
-- crates/connection/src/manager.rs: which connections an operation touches.
use riftnet_rust.Base.{
  ℕ, ◌-◌, ◌≡◌, ◌≢◌, ◌⊎◌, inl, inr, Bool, Option, none, some, List, ◌∷◌, arith, ltb, Option-cases,
}
use riftnet_rust.Base.Bytes.{take_bytes}
use riftnet_rust.Float.{F32}
use riftnet_rust.Compression.{Lz4}
use riftnet_rust.Encryption.{Aead}
use riftnet_rust.Protocol.Packet.{PacketType, packet_code, read_general}
use riftnet_rust.Connection.Pipeline.{NetworkPipeline}
use riftnet_rust.Connection.Conn.{Connection, queue_pending_send}
use riftnet_rust.Connection.Table.{
  SocketAddr, lookup, put, erase, kept, Distinct, lookup-put, lookup-erase, lookup-retain,
  put-Distinct, erase-Distinct, retain-Distinct,
}
use riftnet_rust.Connection.Receive.{answer, disconnected, receive_packet}
use riftnet_rust.Connection.Manager.{
  ConnectionManager, new_connection, open_connection, process_disconnect, handle_packet,
  send_to_client, set_pipeline, evict_stale_connections,
}

module _ {A F : Type 0} ⦃f : F32 F⦄ ⦃lz4 : Lz4⦄ ⦃aead : Aead⦄ ⦃addrs : SocketAddr A⦄ where
  -- The map after a packet: the sender's connection in its place, or forgotten.
  pub handle_packet_cases :
      (m m1 : ConnectionManager A F) (addr : A) (bytes : List ℕ) (now nanos : ℕ)
      (reply : Option (List ℕ))
      → handle_packet m addr bytes now nanos ≡ some (m1, reply)
      → (c : Connection A F) × ((m1.connections ≡ put addr c m.connections)
          ⊎ (m1.connections ≡ erase addr (put addr c m.connections)))
  unfolding handle_packet process_disconnect
  handle_packet_cases m m1 addr bytes now nanos reply e =
      elim (Option-cases (open_connection m addr now nanos)) [
        | inl d ↦ absurd (ground (arith, d))
        | inr (c, d) ↦ elim (Option-cases (receive_packet c now bytes)) [
          | inl d' ↦ absurd (ground (arith, d, d'))
          | inr ((c', answer r), d') ↦ (c', inl (ground (arith, d, d')))
          | inr ((c', disconnected), d') ↦ (c', inr (ground (arith, d, d')))
        ]
      ]

  send_to_client_cases :
      (m m1 : ConnectionManager A F) (addr : A) (bytes : List ℕ) (now : ℕ)
      (reliable is_server : Bool)
      → send_to_client m addr bytes reliable is_server now ≡ some m1
      → (c : Connection A F) × (m1.connections ≡ put addr c m.connections)
  unfolding send_to_client
  send_to_client_cases m m1 addr bytes now reliable is_server e =
      elim (Option-cases (lookup addr m.connections)) [
        | inl d ↦ elim (Option-cases (new_connection {F = F} now addr is_server)) [
          | inl d' ↦ absurd (ground (arith, d, d'))
          | inr (c, d') ↦ (queue_pending_send c bytes reliable, ground (arith, d, d'))
        ]
        | inr (c, d) ↦ (queue_pending_send c bytes reliable, ground (arith, d))
      ]

  -- A packet, a send and a change of pipeline touch the connection of their address alone: under
  -- every other address the same connection, or none, is found afterwards.
  pub others_untouched :
      (m m1 m2 : ConnectionManager A F) (addr other : A) (bytes payload : List ℕ) (now nanos : ℕ)
      (reply : Option (List ℕ)) (reliable is_server : Bool) (p : NetworkPipeline)
      → addr ≢ other
      → handle_packet m addr bytes now nanos ≡ some (m1, reply)
      → send_to_client m addr payload reliable is_server now ≡ some m2
      → (lookup other m1.connections ≡ lookup other m.connections)
        × (lookup other m2.connections ≡ lookup other m.connections)
        × (lookup other (set_pipeline m addr p).connections ≡ lookup other m.connections)
  unfolding set_pipeline
  others_untouched m m1 m2 addr other bytes payload now nanos reply reliable is_server p ne e1 e2 =
      let (c, d) = handle_packet_cases m m1 addr bytes now nanos reply e1 in
      let (c2, d2) = send_to_client_cases m m2 addr payload now reliable is_server e2 in
      (
        ground (
          arith,
          addrs.same_addr_iff addr other,
          lookup-put addr other c m.connections,
          lookup-erase addr other (put addr c m.connections),
        ),
        ground (arith, addrs.same_addr_iff addr other, lookup-put addr other c2 m.connections),
        elim (Option-cases (lookup addr m.connections)) [
          | inl none_found ↦ ground (arith, none_found)
          | inr (c3, found) ↦ ground (
            arith,
            found,
            addrs.same_addr_iff addr other,
            lookup-put addr other (record c3 { pipeline = p }) m.connections,
          )
        ],
      )

  -- Where every address stands in one entry of the map, it still does after a packet, a send, a
  -- change of pipeline and an eviction.
  pub manager-Distinct :
      (m m1 m2 : ConnectionManager A F) (addr : A) (bytes payload : List ℕ) (now nanos timeout : ℕ)
      (reply : Option (List ℕ)) (reliable is_server : Bool) (p : NetworkPipeline)
      → Distinct m.connections
      → handle_packet m addr bytes now nanos ≡ some (m1, reply)
      → send_to_client m addr payload reliable is_server now ≡ some m2
      → Distinct m1.connections
        × Distinct m2.connections
        × Distinct (set_pipeline m addr p).connections
        × Distinct (evict_stale_connections m timeout now).connections
  unfolding set_pipeline evict_stale_connections
  manager-Distinct m m1 m2 addr bytes payload now nanos timeout reply reliable is_server p d e1 e2 =
      let (c, d1) = handle_packet_cases m m1 addr bytes now nanos reply e1 in
      let (c2, d2) = send_to_client_cases m m2 addr payload now reliable is_server e2 in
      (
        elim d1 [
          | inl q ↦ rw q (put-Distinct addr c m.connections d)
          | inr q ↦
              rw q (
                erase-Distinct addr (put addr c m.connections)
                  (put-Distinct addr c m.connections d))
        ],
        rw d2 (put-Distinct addr c2 m.connections d),
        elim (Option-cases (lookup addr m.connections)) [
          | inl none_found ↦ rw (set_pipeline, none_found) d
          | inr (c3, found) ↦
              rw (set_pipeline, found)
                (put-Distinct addr (record c3 { pipeline = p }) m.connections d)
        ],
        retain-Distinct _ m.connections d,
      )

  -- In a map with one entry for each address, eviction keeps a connection exactly if it was seen
  -- less than the timeout ago, and as it was.
  pub lookup-evict :
      (m : ConnectionManager A F) (addr : A) (timeout now : ℕ)
      → Distinct m.connections
      → lookup addr (evict_stale_connections m timeout now).connections
        ≡ kept (λ c. ltb (now - c.last_seen) timeout) (lookup addr m.connections)
  unfolding evict_stale_connections
  lookup-evict m addr timeout now d = lookup-retain _ addr m.connections d

  -- After a disconnect packet the sender has no connection, and gets no answer.
  pub lookup-disconnect :
      (m m' : ConnectionManager A F) (addr : A) (rest : List ℕ) (now nanos : ℕ)
      (reply : Option (List ℕ))
      → handle_packet m addr (packet_code PacketType.disconnect ∷ rest) now nanos ≡ some (m', reply)
      → (lookup addr m'.connections ≡ none) × (reply ≡ none)
  unfolding handle_packet receive_packet process_disconnect read_general take_bytes
  lookup-disconnect m m' addr rest now nanos reply e =
      elim (Option-cases (open_connection m addr now nanos)) [
        | inl d ↦ absurd (ground (arith, d))
        | inr (c, d) ↦ (
          ground (
            arith,
            d,
            addrs.same_addr_iff addr addr,
            lookup-erase addr addr (put addr c m.connections),
          ),
          ground (arith, d),
        )
      ]
