-- ===== src/Connection/Conn/Flush.antt =====
-- crates/connection/src/connection.rs: what a flush of the queue does to a connection.
use riftnet_rust.Base.{
  ◌∙◌, ℕ, ◌+◌, ◌-◌, ◌*◌, ◌^◌, ◌<◌, ◌≤◌, ◌≡◌, ◌↔◌, inl, inr, refl, ap, true, false, Option, none,
  some, List, [], ◌∷◌, ◌++◌, length, arith, Option-cases, ◌||◌,
}
use riftnet_rust.Base.Bits.{u16, u64}
use riftnet_rust.Base.Bytes.{take_bytes}
use riftnet_rust.Float.{F32}
use riftnet_rust.Protocol.Reliable.{process_retransmissions}
use riftnet_rust.Protocol.Reliable.Resend.{process_retransmissions_next}
use riftnet_rust.Connection.Pipeline.{NetworkPipeline}
use riftnet_rust.Connection.Conn.{
  PendingSend, Connection, get_tx_nonce, flush_unreliable, flush_one, flush_queue, swap_pipeline,
  update,
}
use riftnet_rust.Connection.Conn.Queue.{total_bytes, IsValid}
use riftnet_rust.Connection.Conn.Frames.{datagrams_of, flush_queue-datagrams}
use riftnet_rust.Connection.Conn.Numbers.{
  flush_queue-cons, flush_one-Numbers, next_pipeline, has_header, sendable, reliable_count,
  unreliable_count,
}

module _ {A F : Type 0} ⦃f : F32 F⦄ where
  flush_unreliable-none :
      (c : Connection A F) (payload : List ℕ)
      → (flush_unreliable c payload ≡ none) ↔ (has_header payload ≡ false)
  unfolding flush_unreliable take_bytes get_tx_nonce
  flush_unreliable-none c [] = ground arith
  flush_unreliable-none c (x ∷ xs) = ground arith

  flush_one-none :
      (c : Connection A F) (now : ℕ) (ps : PendingSend)
      → (flush_one c now ps ≡ none) ↔ ((ps.reliable || has_header ps.payload) ≡ false)
  unfolding flush_one
  flush_one-none c now ps = ground (
    arith,
    flush_unreliable-none
        (record c { pending_bytes = u64 (c.pending_bytes + 2 ^ 64 - length ps.payload) })
        ps.payload,
  )

  pub flush_queue-none :
      (c : Connection A F) (now : ℕ) (q : List PendingSend)
      → (flush_queue c now q ≡ none) ↔ (sendable q ≡ false)
  unfolding flush_queue
  flush_queue-none c now [] = ground arith
  flush_queue-none c now (ps ∷ rest) =
      elim (Option-cases (flush_one (record c { pending_queue = rest }) now ps)) [
        | inl e ↦ ground (arith, flush_one-none (record c { pending_queue = rest }) now ps)
        | inr ((c', out), e) ↦ ground (
          arith,
          flush_one-none (record c { pending_queue = rest }) now ps,
          flush_queue-none c' now rest,
        )
      ]

  -- A flush panics exactly if some unreliable payload of the queue is empty.
  pub update_panics_iff :
      (c : Connection A F) (now : ℕ) → (update c now ≡ none) ↔ (sendable c.pending_queue ≡ false)
  unfolding update
  update_panics_iff c now = ground (
    arith,
    flush_queue-none (record c { state = (process_retransmissions c.state now).0 }) now
        c.pending_queue,
  )

  -- What a whole flush changes.
  record Flushed (q : List PendingSend) (c c' : Connection A F) : Type 0 where
    next : c'.state.next_outgoing_sequence ≡ u16 (c.state.next_outgoing_sequence + reliable_count q)
    nonce : c'.tx_nonce ≡ u64 (c.tx_nonce + 2 * unreliable_count q)
    bytes : c'.pending_bytes ≡ c.pending_bytes - total_bytes q
    queue : c'.pending_queue ≡ []
    same_limit : c'.max_pending_bytes ≡ c.max_pending_bytes
    same_pipeline : c'.pipeline ≡ c.pipeline
    same_swap : c'.pending_pipeline_swap ≡ c.pending_pipeline_swap
    same_endpoint : c'.endpoint ≡ c.endpoint
    same_role : c'.is_server ≡ c.is_server
    same_authenticated : c'.is_authenticated ≡ c.is_authenticated

  flush_queue-Flushed :
      (q : List PendingSend) (c c' : Connection A F) (now : ℕ) (sent : List (List ℕ))
      → c.state.next_outgoing_sequence < 2 ^ 16
      → c.tx_nonce < 2 ^ 64
      → total_bytes q ≤ c.pending_bytes
      → c.pending_bytes < 2 ^ 64
      → flush_queue c now q ≡ some (c', sent)
      → Flushed q c c'
  unfolding flush_queue
  flush_queue-Flushed [] c c' now sent hn ht hb hm e = ground arith
  flush_queue-Flushed (ps ∷ rest) c c' now sent hn ht hb hm e =
      let (m, out, sent', first, others, _) = flush_queue-cons c c' now ps rest sent e in
      let n = flush_one-Numbers (record c { pending_queue = rest }) m now ps out first in
      let tail =
        flush_queue-Flushed rest m c' now sent' (ground (arith, n)) (ground (arith, n))
          (ground (arith, n)) (ground (arith, n)) others in
      ground (arith, n, tail)

  -- What `update` changes.
  pub record Updated (c c' : Connection A F) : Type 0 where
    pub valid : IsValid c'
    pub queue : c'.pending_queue ≡ []
    pub next :
        c'.state.next_outgoing_sequence
        ≡ u16 (c.state.next_outgoing_sequence + reliable_count c.pending_queue)
    pub nonce : c'.tx_nonce ≡ u64 (c.tx_nonce + 2 * unreliable_count c.pending_queue)
    pub pipeline : c'.pipeline ≡ next_pipeline c.pending_pipeline_swap c.pipeline
    pub no_swap : c'.pending_pipeline_swap ≡ none
    pub same_endpoint : c'.endpoint ≡ c.endpoint
    pub same_role : c'.is_server ≡ c.is_server
    pub same_authenticated : c'.is_authenticated ≡ c.is_authenticated

  -- Retransmissions leave what the datagrams of the queue depend on.
  process_retransmissions-datagrams :
      (c : Connection A F) (q : List PendingSend) (now : ℕ)
      → datagrams_of (record c { state = (process_retransmissions c.state now).0 }) q
        ≡ datagrams_of c q
  unfolding process_retransmissions
  process_retransmissions-datagrams c q now = refl

  swap_pipeline-Updated :
      (c base m : Connection A F) (swap : Option NetworkPipeline)
      → IsValid c
      → Flushed c.pending_queue base m
      → base.state.next_outgoing_sequence ≡ c.state.next_outgoing_sequence
      → base.tx_nonce ≡ c.tx_nonce
      → base.pending_bytes ≡ c.pending_bytes
      → base.max_pending_bytes ≡ c.max_pending_bytes
      → base.pipeline ≡ c.pipeline
      → base.pending_pipeline_swap ≡ c.pending_pipeline_swap
      → base.endpoint ≡ c.endpoint
      → base.is_server ≡ c.is_server
      → base.is_authenticated ≡ c.is_authenticated
      → m.pending_pipeline_swap ≡ swap
      → Updated c (swap_pipeline m)
  unfolding swap_pipeline
  swap_pipeline-Updated c base m none v fl h1 h2 h3 h4 h5 h6 h7 h8 h9 e =
      ground (arith, ap total_bytes fl.queue)
  swap_pipeline-Updated c base m (some p) v fl h1 h2 h3 h4 h5 h6 h7 h8 h9 e =
      ground (arith, ap total_bytes fl.queue)

  -- A flush of a valid queue in which every unreliable payload has its header, with counters in the
  -- range of their types, does not panic. It empties the queue and its counter, then puts the
  -- waiting pipeline in place, and leaves the peer, the role and the authentication alone. It sends
  -- the payloads to be resent, then the datagrams of the queue in order: the reliable packets with
  -- the successive sequence numbers, the unreliable ones with every second nonce, each processed
  -- under its number by the pipeline from before the swap, less those that this fails on; the
  -- counters stand at the next numbers afterwards.
  pub update-Updated :
      (c : Connection A F) (now : ℕ)
      → IsValid c
      → c.state.next_outgoing_sequence < 2 ^ 16
      → c.tx_nonce < 2 ^ 64
      → sendable c.pending_queue ≡ true
      → (c' : Connection A F) × (sent : List (List ℕ)) × (update c now ≡ some (c', sent))
        × Updated c c'
        × (sent ≡ (process_retransmissions c.state now).1 ++ datagrams_of c c.pending_queue)
  unfolding update
  update-Updated c now v hn ht ready =
      let base = record c { state = (process_retransmissions c.state now).0 } in
      let next = process_retransmissions_next c.state now in
      let same : datagrams_of base c.pending_queue ≡ datagrams_of c c.pending_queue =
        process_retransmissions-datagrams c c.pending_queue now in
      elim (Option-cases (flush_queue base now c.pending_queue)) [
        | inl e ↦ absurd (ground (arith, flush_queue-none base now c.pending_queue))
        | inr ((m, sent), e) ↦
            (let fl =
                flush_queue-Flushed c.pending_queue base m now sent (omega (arith, next, hn)) ht
                  (omega (arith, v.counted)) (omega (arith, v.within, v.limit)) e in
              (
                swap_pipeline m,
                (process_retransmissions c.state now).1 ++ sent,
                rw (update, e),
                swap_pipeline-Updated c base m m.pending_pipeline_swap v fl next refl refl refl refl
                    refl refl refl refl refl,
                ap (λ frames. (process_retransmissions c.state now).1 ++ frames)
                    (flush_queue-datagrams c.pending_queue base m now sent e ∙ same),
              ))
      ]
