-- ===== src/Connection/Manager/Run.antt =====
-- crates/connection/src/manager.rs: what holds of the manager in every run of its operations.
use riftnet_rust.Base.{
  ℕ, ◌^◌, ◌<◌, ◌≡◌, inl, inr, Bool, Option, some, List, [], ◌∷◌, length, arith, Option-cases,
}
use riftnet_rust.Float.{F32}
use riftnet_rust.Compression.{Lz4}
use riftnet_rust.Encryption.{Aead}
use riftnet_rust.Connection.Pipeline.{NetworkPipeline}
use riftnet_rust.Connection.Conn.{Connection, queue_pending_send, update}
use riftnet_rust.Connection.Table.{
  SocketAddr, lookup, put, Distinct, Every, put-Distinct, erase-Distinct, retain-Distinct,
}
use riftnet_rust.Connection.Table.Keys.{Every-put, Every-erase, Every-retain, Every-lookup}
use riftnet_rust.Connection.Receive.{receive_packet}
use riftnet_rust.Connection.Manager.{
  ConnectionManager, new, new_connection, open_connection, process_disconnect, handle_packet,
  send_to_client, set_pipeline, flush_connections, flush_all, evict_stale_connections,
}
use riftnet_rust.Connection.Manager.Flush.{flush_connections-Distinct}
use riftnet_rust.Connection.Manager.Sound.{
  IsSound, Kept-IsSound, receive_packet-Kept, queue_pending_send-IsSound, update-IsSound,
  new_connection-IsSound, open_connection-IsSound,
}

module _ {A F : Type 0} ⦃f : F32 F⦄ ⦃lz4 : Lz4⦄ ⦃aead : Aead⦄ ⦃addrs : SocketAddr A⦄ where
  -- One operation that does not panic. What is sent is shorter than 2^63 bytes.
  pub data Step : ConnectionManager A F → ConnectionManager A F → Type 0 where
    packet :
        {m m' : ConnectionManager A F} (a : A) (bytes : List ℕ) (now nanos : ℕ)
        (reply : Option (List ℕ))
        → handle_packet m a bytes now nanos ≡ some (m', reply)
        → Step m m'
    sending :
        {m m' : ConnectionManager A F} (a : A) (bytes : List ℕ) (reliable is_server : Bool)
        (now : ℕ)
        → length bytes < 2 ^ 63
        → send_to_client m a bytes reliable is_server now ≡ some m'
        → Step m m'
    repiped :
        {m : ConnectionManager A F} (a : A) (p : NetworkPipeline) → Step m (set_pipeline m a p)
    evicted :
        {m : ConnectionManager A F} (timeout now : ℕ)
        → Step m (evict_stale_connections m timeout now)
    flushing :
        {m m' : ConnectionManager A F} (now : ℕ) (sent : List (List ℕ × A))
        → flush_all m now ≡ some (m', sent)
        → Step m m'

  -- Operations one after the other, from a new manager.
  pub data Reached : ConnectionManager A F → Type 0 where
    fresh : Reached new
    more : {m m' : ConnectionManager A F} → Reached m → Step m m' → Reached m'

  pub record IsValid (m : ConnectionManager A F) : Type 0 where
    pub distinct : Distinct m.connections
    pub sound : Every IsSound m.connections

  put-IsValid :
      (m : ConnectionManager A F) (a : A) (c : Connection A F)
      → IsSound c
      → IsValid m
      → IsValid (record { connections = put a c m.connections })
  put-IsValid m a c s v = record {
    distinct = put-Distinct a c m.connections v.distinct;
    sound = Every-put IsSound a c m.connections s v.sound;
  }

  handle_packet-IsValid :
      (m m' : ConnectionManager A F) (a : A) (bytes : List ℕ) (now nanos : ℕ)
      (reply : Option (List ℕ))
      → handle_packet m a bytes now nanos ≡ some (m', reply)
      → IsValid m
      → IsValid m'
  unfolding handle_packet process_disconnect
  handle_packet-IsValid m m' a bytes now nanos reply e v =
      elim (Option-cases (open_connection m a now nanos)) [
        | inl d ↦ absurd (ground (arith, d))
        | inr (c, d) ↦ elim (Option-cases (receive_packet c now bytes)) [
          | inl d' ↦ absurd (ground (arith, d, d'))
          | inr ((c', verdict), d') ↦
              (let s =
                  Kept-IsSound c c' (receive_packet-Kept c c' now bytes verdict d')
                    (open_connection-IsSound m a now nanos c v.sound d) in
                let kept = put-IsValid m a c' s v in
                let forgotten : IsValid
                    (process_disconnect (record { connections = put a c' m.connections }) a) =
                  record {
                    distinct = erase-Distinct a (put a c' m.connections) kept.distinct;
                    sound = Every-erase IsSound a (put a c' m.connections) kept.sound;
                  } in
                ground (arith, d, d', kept, forgotten))
        ]
      ]

  send_to_client-IsValid :
      (m m' : ConnectionManager A F) (a : A) (bytes : List ℕ) (reliable is_server : Bool) (now : ℕ)
      → length bytes < 2 ^ 63
      → send_to_client m a bytes reliable is_server now ≡ some m'
      → IsValid m
      → IsValid m'
  unfolding send_to_client
  send_to_client-IsValid m m' a bytes reliable is_server now small e v =
      elim (Option-cases (lookup a m.connections)) [
        | inr (c, d) ↦
            (let s =
                queue_pending_send-IsSound c bytes reliable small
                  (Every-lookup IsSound a c m.connections v.sound d) in
              ground (arith, d, e, put-IsValid m a (queue_pending_send c bytes reliable) s v))
        | inl d ↦ elim (Option-cases (new_connection {F = F} now a is_server)) [
          | inl d' ↦ absurd (ground (arith, d, d', e))
          | inr (c, d') ↦
              (let s =
                  queue_pending_send-IsSound c bytes reliable small
                    (new_connection-IsSound now a is_server c d') in
                ground (arith, d, d', e, put-IsValid m a (queue_pending_send c bytes reliable) s v))
        ]
      ]

  set_pipeline-IsValid :
      (m : ConnectionManager A F) (a : A) (p : NetworkPipeline)
      → IsValid m
      → IsValid (set_pipeline m a p)
  unfolding set_pipeline
  set_pipeline-IsValid m a p v = elim (Option-cases (lookup a m.connections)) [
    | inl d ↦ rw (set_pipeline, d) v
    | inr (c, d) ↦
        rw (set_pipeline, d)
          (put-IsValid m a (record c { pipeline = p })
            (Kept-IsSound c (record c { pipeline = p }) (ground arith)
              (Every-lookup IsSound a c m.connections v.sound d))
            v)
  ]

  flush_connections-IsSound :
      (now : ℕ) (conns conns' : List (A × Connection A F)) (sent : List (List ℕ × A))
      → flush_connections now conns ≡ some (conns', sent)
      → Every IsSound conns
      → Every IsSound conns'
  unfolding flush_connections
  flush_connections-IsSound now [] conns' sent e s = ground (arith, e)
  flush_connections-IsSound now ((a, c) ∷ rest) conns' sent e s =
      elim (Option-cases (update c now)) [
        | inl q ↦ absurd (ground (arith, q))
        | inr ((c', out), q) ↦ elim (Option-cases (flush_connections now rest)) [
          | inl q' ↦ absurd (ground (arith, q, q'))
          | inr ((rest', sent'), q') ↦ ground (
            arith,
            q,
            q',
            update-IsSound c c' now out q s.0,
            flush_connections-IsSound now rest rest' sent' q' s.1,
          )
        ]
      ]

  Step-IsValid : (m m' : ConnectionManager A F) → Step m m' → IsValid m → IsValid m'
  unfolding evict_stale_connections flush_all
  Step-IsValid m m' (packet a bytes now nanos reply e) v =
      handle_packet-IsValid m m' a bytes now nanos reply e v
  Step-IsValid m m' (sending a bytes reliable is_server now small e) v =
      send_to_client-IsValid m m' a bytes reliable is_server now small e v
  Step-IsValid m m' (repiped a p) v = set_pipeline-IsValid m a p v
  Step-IsValid m m' (evicted timeout now) v = record {
    distinct = retain-Distinct _ m.connections v.distinct;
    sound = Every-retain IsSound _ m.connections v.sound;
  }
  Step-IsValid m m' (flushing now sent e) v =
      elim (Option-cases (flush_connections now m.connections)) [
        | inl d ↦ absurd (ground (arith, d, e))
        | inr ((conns, out), d) ↦
            (let flushed : IsValid (record { connections = conns }) = record {
              distinct = flush_connections-Distinct now m.connections conns out d v.distinct;
              sound = flush_connections-IsSound now m.connections conns out d v.sound;
            } in
              ground (arith, d, e, flushed))
      ]

  -- In every run of a new manager's operations, in which what is sent is shorter than 2^63 bytes:
  -- every address stands in one entry, and every connection has as many queued bytes as it counts,
  -- no more than one MiB, and counters in the range of their types.
  pub Reached-IsValid : (m : ConnectionManager A F) → Reached m → IsValid m
  unfolding new
  Reached-IsValid m fresh = record { distinct = tt; sound = tt }
  Reached-IsValid m (more r s) = Step-IsValid _ m s (Reached-IsValid _ r)
