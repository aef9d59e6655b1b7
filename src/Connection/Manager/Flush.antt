-- ===== src/Connection/Manager/Flush.antt =====
-- crates/connection/src/manager.rs: a flush of all connections is a flush of each.
use mathlib.Core.List.{append-nil}
use riftnet_rust.Base.{
  ℕ, ◌≡◌, inl, inr, Option, none, some, List, [], ◌∷◌, ◌++◌, arith, Option-cases, if◌then◌else◌,
}
use riftnet_rust.Float.{F32}
use riftnet_rust.Compression.{Lz4}
use riftnet_rust.Encryption.{Aead}
use riftnet_rust.Connection.Conn.{Connection, update}
use riftnet_rust.Connection.Table.{SocketAddr, lookup, contains_key, Distinct}
use riftnet_rust.Connection.Manager.{ConnectionManager, tag, flush_connections, flush_all}

-- The datagrams for one address, in order.
abbrev pub sent_to : {A : Type 0} ⦃addrs : SocketAddr A⦄ → A → List (List ℕ × A) → List (List ℕ)
sent_to a [] = []
sent_to ⦃addrs⦄ a ((bytes, b) ∷ rest) =
    let others = sent_to a rest in if addrs.same_addr b a then bytes ∷ others else others

module _ {A F : Type 0} ⦃f : F32 F⦄ where
  -- What a flush of all makes of a connection, and what it sends to its address.
  abbrev pub flushed : Option (Connection A F) → ℕ → Option (Connection A F) × List (List ℕ)
  flushed none now = (none, [])
  flushed (some c) now = elim (update c now) [
    | none ↦ (none, [])
    | some (c', sent) ↦ (some c', sent)
  ]

module _ {A : Type 0} ⦃addrs : SocketAddr A⦄ where
  sent_to-tag :
      (a b : A) (sent : List (List ℕ)) (rest : List (List ℕ × A))
      → sent_to a (tag b sent ++ rest)
        ≡ (if addrs.same_addr b a then sent ++ sent_to a rest else sent_to a rest)
  sent_to-tag a b [] rest = ground arith
  sent_to-tag a b (bytes ∷ sent) rest = ground (arith, sent_to-tag a b sent rest)

module _ {A F : Type 0} ⦃f : F32 F⦄ ⦃lz4 : Lz4⦄ ⦃aead : Aead⦄ ⦃addrs : SocketAddr A⦄ where
  flush_connections_lem :
      (now : ℕ) (conns conns' : List (A × Connection A F)) (sent : List (List ℕ × A)) (a : A)
      → Distinct conns
      → flush_connections now conns ≡ some (conns', sent)
      → (lookup a conns', sent_to a sent) ≡ flushed (lookup a conns) now
  unfolding flush_connections lookup
  flush_connections_lem now [] conns' sent a d e = ground arith
  flush_connections_lem now ((b, c) ∷ rest) conns' sent a d e = elim (Option-cases (update c now)) [
    | inl q ↦ absurd (ground (arith, q))
    | inr ((c', out), q) ↦ elim (Option-cases (flush_connections now rest)) [
      | inl q' ↦ absurd (ground (arith, q, q'))
      | inr ((rest', sent'), q') ↦ ground (
        arith,
        q,
        q',
        d,
        addrs.same_addr_iff b a,
        append-nil out,
        sent_to-tag a b out sent',
        flush_connections_lem now rest rest' sent' a d.1 q',
      )
    ]
  ]

  pub contains_key-flush_connections :
      (a : A) (now : ℕ) (conns conns' : List (A × Connection A F)) (sent : List (List ℕ × A))
      → flush_connections now conns ≡ some (conns', sent)
      → contains_key a conns' ≡ contains_key a conns
  unfolding flush_connections lookup
  contains_key-flush_connections a now [] conns' sent e = ground arith
  contains_key-flush_connections a now ((j, c) ∷ rest) conns' sent e =
      elim (Option-cases (update c now)) [
        | inl d ↦ absurd (ground (arith, d))
        | inr ((c', out), d) ↦ elim (Option-cases (flush_connections now rest)) [
          | inl d' ↦ absurd (ground (arith, d, d'))
          | inr ((rest', sent'), d') ↦
              ground (arith, d, d', contains_key-flush_connections a now rest rest' sent' d')
        ]
      ]

  pub flush_connections-Distinct :
      (now : ℕ) (conns conns' : List (A × Connection A F)) (sent : List (List ℕ × A))
      → flush_connections now conns ≡ some (conns', sent)
      → Distinct conns
      → Distinct conns'
  unfolding flush_connections
  flush_connections-Distinct now [] conns' sent e d = ground (arith, e)
  flush_connections-Distinct now ((a, c) ∷ rest) conns' sent e d =
      elim (Option-cases (update c now)) [
        | inl q ↦ absurd (ground (arith, q))
        | inr ((c', out), q) ↦ elim (Option-cases (flush_connections now rest)) [
          | inl q' ↦ absurd (ground (arith, q, q'))
          | inr ((rest', sent'), q') ↦ ground (
            arith,
            q,
            q',
            d,
            contains_key-flush_connections a now rest rest' sent' q',
            flush_connections-Distinct now rest rest' sent' q' d.1,
          )
        ]
      ]

  -- Where every address stands in one entry, a flush of all connections that does not panic flushes
  -- each by itself: under every address the connection after its own flush is found, or none if
  -- there was none, and the datagrams for the address are those of its own flush, in their order.
  pub flush_all_lem :
      (m m' : ConnectionManager A F) (now : ℕ) (sent : List (List ℕ × A)) (a : A)
      → Distinct m.connections
      → flush_all m now ≡ some (m', sent)
      → (lookup a m'.connections, sent_to a sent) ≡ flushed (lookup a m.connections) now
  unfolding flush_all
  flush_all_lem m m' now sent a d e = elim (Option-cases (flush_connections now m.connections)) [
    | inl q ↦ absurd (ground (arith, q))
    | inr ((conns, out), q) ↦
        ground (arith, q, flush_connections_lem now m.connections conns out a d q)
  ]
