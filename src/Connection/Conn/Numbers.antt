-- ===== src/Connection/Conn/Numbers.antt =====
-- crates/connection/src/connection.rs: what the flush of one packet changes, and the packets of a
-- queue by their kind.
use riftnet_rust.Base.{
  inl, inr, Option-cases, some, ℕ, suc, ◌+◌, ◌-◌, ◌^◌, ◌≡◌, Bool, true, false, Option, none, List,
  [], ◌∷◌, length, arith, if◌then◌else◌, ◌&&◌, ◌||◌,
}
use riftnet_rust.Base.Bits.{u16, u64}
use riftnet_rust.Float.{F32}
use riftnet_rust.Connection.Pipeline.{NetworkPipeline}
use riftnet_rust.Connection.Conn.{
  send_some, flush_queue, PendingSend, Connection, get_tx_nonce, flush_reliable, flush_unreliable,
  flush_one,
}

module _ {A F : Type 0} where
  -- What one packet changes: the counters that number it, and nothing of the connection's identity.
  pub record Numbers (ps : PendingSend) (c c' : Connection A F) : Type 0 where
    pub next : c'.state.next_outgoing_sequence ≡ (
        if ps.reliable
        then u16 (c.state.next_outgoing_sequence + 1)
        else c.state.next_outgoing_sequence)
    pub nonce : c'.tx_nonce ≡ (if ps.reliable then c.tx_nonce else u64 (c.tx_nonce + 2))
    pub bytes : c'.pending_bytes ≡ u64 (c.pending_bytes + 2 ^ 64 - length ps.payload)
    pub queue : c'.pending_queue ≡ c.pending_queue
    pub same_limit : c'.max_pending_bytes ≡ c.max_pending_bytes
    pub same_pipeline : c'.pipeline ≡ c.pipeline
    pub same_swap : c'.pending_pipeline_swap ≡ c.pending_pipeline_swap
    pub same_endpoint : c'.endpoint ≡ c.endpoint
    pub same_role : c'.is_server ≡ c.is_server
    pub same_authenticated : c'.is_authenticated ≡ c.is_authenticated
    pub same_highest : c'.state.highest_received_sequence ≡ c.state.highest_received_sequence
    pub same_bits : c'.state.received_sequence_bitfield ≡ c.state.received_sequence_bitfield

module _ {A F : Type 0} ⦃f : F32 F⦄ where
  pub flush_one-Numbers :
      (c c' : Connection A F) (now : ℕ) (ps : PendingSend) (out : Option (List ℕ))
      → flush_one c now ps ≡ some (c', out)
      → Numbers ps c c'
  unfolding flush_one flush_reliable flush_unreliable get_tx_nonce
  flush_one-Numbers c c' now ps out e = ground arith

-- The pipeline after the flush: the one that waited for it, if any.
abbrev pub next_pipeline : Option NetworkPipeline → NetworkPipeline → NetworkPipeline
next_pipeline none p = p
next_pipeline (some q) p = q

-- A payload that is not sent reliably has to begin with its header.
abbrev pub has_header : List ℕ → Bool
has_header [] = false
has_header (x ∷ xs) = true

abbrev pub sendable : List PendingSend → Bool
sendable [] = true
sendable (ps ∷ rest) = (ps.reliable || has_header ps.payload) && sendable rest

abbrev pub reliable_count : List PendingSend → ℕ
reliable_count [] = 0
reliable_count (ps ∷ rest) = if ps.reliable then suc (reliable_count rest) else reliable_count rest

abbrev pub unreliable_count : List PendingSend → ℕ
unreliable_count [] = 0
unreliable_count (ps ∷ rest) =
    if ps.reliable then unreliable_count rest else suc (unreliable_count rest)

module _ {A F : Type 0} ⦃f : F32 F⦄ where
  -- The first packet and the rest of a flush that does not panic.
  pub flush_queue-cons :
      (c c' : Connection A F) (now : ℕ) (ps : PendingSend) (rest : List PendingSend)
      (sent : List (List ℕ))
      → flush_queue c now (ps ∷ rest) ≡ some (c', sent)
      → (m : Connection A F) × (out : Option (List ℕ)) × (sent' : List (List ℕ)) × (flush_one
            (record c { pending_queue = rest })
            now
            ps
          ≡ some (m, out))
        × (flush_queue m now rest ≡ some (c', sent'))
        × (sent ≡ send_some out sent')
  unfolding flush_queue
  flush_queue-cons c c' now ps rest sent e =
      elim (Option-cases (flush_one (record c { pending_queue = rest }) now ps)) [
        | inl d ↦ absurd (ground arith)
        | inr ((m, out), d) ↦ elim (Option-cases (flush_queue m now rest)) [
          | inl g ↦ absurd (ground arith)
          | inr ((c'', sent'), g) ↦ (m, out, sent', d, ground arith, ground arith)
        ]
      ]
