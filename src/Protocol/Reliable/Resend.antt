-- ===== src/Protocol/Reliable/Resend.antt =====
-- crates/protocol/src/protocol.rs: what a pass of `process_retransmissions` resends.
use riftnet_rust.Base.{
  zero, suc, ap, ◌∙◌, ℕ, ◌+◌, ◌^◌, ◌<◌, ◌≡◌, refl, true, false, List, [], ◌∷◌, ◌++◌, length, arith,
  Bool-cases, inl, inr,
}
use riftnet_rust.Base.Bits.{u32}
use riftnet_rust.Float.{F32}
use riftnet_rust.Protocol.Reliable.{
  UnackedPacket, ReliableConnectionState, elapsed_ms, resend_packet, backed_off, resend_loop,
  process_retransmissions,
}

module _ {F : Type 0} ⦃f : F32 F⦄ where
  -- A timeout backed off `n` times.
  abbrev pub backed_after : ℕ → F → F
  backed_after zero rto = rto
  backed_after (suc n) rto = backed_off (backed_after n rto)

  -- A pass at `now` over a queue of packets, of which `n` before them were sent again: a packet is
  -- sent again exactly if it has waited for the timeout, backed off once for each that was sent
  -- again before it.
  pub data Resends (now : ℕ) (rto : F)
      : ℕ → List UnackedPacket → List UnackedPacket → List (List ℕ) → Type 0 where
    done : {n : ℕ} → Resends now rto n [] [] []
    left :
        (p : UnackedPacket) {n : ℕ} {ps qs : List UnackedPacket} {queue : List (List ℕ)}
        → f.le (backed_after n rto) (elapsed_ms now p.time_sent) ≡ false
        → Resends now rto n ps qs queue
        → Resends now rto n (p ∷ ps) (p ∷ qs) queue
    resent :
        (p : UnackedPacket) {n : ℕ} {ps qs : List UnackedPacket} {queue : List (List ℕ)}
        → f.le (backed_after n rto) (elapsed_ms now p.time_sent) ≡ true
        → Resends now rto (suc n) ps qs queue
        → Resends now rto n
            (p ∷ ps)
            (record p { time_sent = now; retries = u32 (p.retries + 1) } ∷ qs)
            (p.payload ∷ queue)

  resend_loop-Resends :
      (now : ℕ) (rto : F) (n stats : ℕ) (pkts : List UnackedPacket)
      → let out = resend_loop now (backed_after n rto) stats pkts in
        Resends now rto n pkts out.0 out.1
  unfolding resend_loop resend_packet
  resend_loop-Resends now rto n stats [] = done
  resend_loop-Resends now rto n stats (pkt ∷ pkts) =
      elim (Bool-cases (f.le (backed_after n rto) (elapsed_ms now pkt.time_sent))) [
        | inl due ↦
            rw due (resent pkt due (resend_loop-Resends now rto (suc n) (u32 (stats + 1)) pkts))
        | inr waits ↦ rw waits (left pkt waits (resend_loop-Resends now rto n stats pkts))
      ]

  resend_loop-backed_after :
      (now : ℕ) (rto : F) (n stats : ℕ) (pkts : List UnackedPacket)
      → let out = resend_loop now (backed_after n rto) stats pkts in
        out.2 ≡ backed_after (n + length out.1) rto
  unfolding resend_loop
  resend_loop-backed_after now rto n stats [] =
      ap (λ k. backed_after k rto) {x = n} {y = n + 0} (omega arith)
  resend_loop-backed_after now rto n stats (pkt ∷ pkts) =
      elim (Bool-cases (f.le (backed_after n rto) (elapsed_ms now pkt.time_sent))) [
        | inl due ↦
            (let out = resend_loop now (backed_after (suc n) rto) (u32 (stats + 1)) pkts in
              rw due (
                resend_loop-backed_after now rto (suc n) (u32 (stats + 1)) pkts
                ∙ ap (λ k. backed_after k rto) {x = suc n + length out.1}
                    {y = n + suc (length out.1)} (omega arith)))
        | inr waits ↦ rw waits (resend_loop-backed_after now rto n stats pkts)
      ]

  resend_loop-stats :
      (now : ℕ) (rto : F) (stats : ℕ) (pkts : List UnackedPacket)
      → stats < 2 ^ 32
      → let out = resend_loop now rto stats pkts in out.3 ≡ u32 (stats + length out.1)
  unfolding resend_loop
  resend_loop-stats now rto stats [] h = omega arith
  resend_loop-stats now rto stats (pkt ∷ pkts) h =
      elim (Bool-cases (f.le rto (elapsed_ms now pkt.time_sent))) [
        | inl due ↦ rw due (
            omega
              (arith, resend_loop-stats now (backed_off rto) (u32 (stats + 1)) pkts (omega arith)))
        | inr waits ↦ rw waits (resend_loop-stats now rto stats pkts h)
      ]

  -- No packet of the queue is waiting for longer than the timeout.
  abbrev pub NoneDue : ℕ → F → List UnackedPacket → Type 0
  NoneDue now rto [] = Unit
  NoneDue now rto (p ∷ ps) = (f.le rto (elapsed_ms now p.time_sent) ≡ false) × NoneDue now rto ps

  resend_loop_none :
      (now : ℕ) (rto : F) (stats : ℕ) (pkts : List UnackedPacket)
      → NoneDue now rto pkts
      → resend_loop now rto stats pkts ≡ (pkts, [], rto, stats)
  unfolding resend_loop
  resend_loop_none now rto stats [] h = refl
  resend_loop_none now rto stats (pkt ∷ pkts) h = rw (h.0, resend_loop_none now rto stats pkts h.1)

  -- A pass keeps the queue in order. A packet's payload is resent, with its time and its number of
  -- retries brought up to date, exactly if the packet has waited for the timeout, backed off once
  -- for each packet before it that is resent; any other packet stays as it is. Afterwards the
  -- timeout is backed off once for each payload, and the counter, which has 32 bits, has grown by
  -- their number, modulo 2^32.
  pub process_retransmissions-Resends :
      (s : ReliableConnectionState F) (now : ℕ)
      → s.stats_retransmits < 2 ^ 32
      → let (t, queue) = process_retransmissions s now in
        Resends now s.retransmission_timeout_ms 0 s.unacknowledged_packets t.unacknowledged_packets
          queue
        × (t.retransmission_timeout_ms ≡ backed_after (length queue) s.retransmission_timeout_ms)
        × (t.stats_retransmits ≡ u32 (s.stats_retransmits + length queue))
  unfolding process_retransmissions
  process_retransmissions-Resends s now h =
      let rto = s.retransmission_timeout_ms in
      let pkts = s.unacknowledged_packets in
      let resent_count = length (resend_loop now rto s.stats_retransmits pkts).1 in
      (
        resend_loop-Resends now rto 0 s.stats_retransmits pkts,
        resend_loop-backed_after now rto 0 s.stats_retransmits pkts
            ∙ ap (λ k. backed_after k rto) {x = 0 + resent_count} {y = resent_count} (omega arith),
        resend_loop-stats now rto s.stats_retransmits pkts h,
      )

  -- Where no packet has waited for the timeout, a pass resends nothing and changes nothing.
  pub process_retransmissions_idle :
      (s : ReliableConnectionState F) (now : ℕ)
      → NoneDue now s.retransmission_timeout_ms s.unacknowledged_packets
      → process_retransmissions s now ≡ (s, [])
  unfolding process_retransmissions
  process_retransmissions_idle s now none_due = rw (resend_loop_none now _ _ _ none_due)

  -- A packet that has waited for the timeout is resent if every packet before it is not due: its
  -- payload comes first, and the packets behind it are judged by the timeout backed off once.
  pub resend_first_due :
      (now : ℕ) (rto : F) (stats : ℕ) (front : List UnackedPacket) (p : UnackedPacket)
      (back : List UnackedPacket)
      → NoneDue now rto front
      → f.le rto (elapsed_ms now p.time_sent) ≡ true
      → let rest = resend_loop now (backed_off rto) (u32 (stats + 1)) back in
        resend_loop now rto stats (front ++ (p ∷ back))
        ≡ (front ++ (resend_packet now p ∷ rest.0), p.payload ∷ rest.1, rest.2, rest.3)
  unfolding resend_loop
  resend_first_due now rto stats [] p back wait due = rw due
  resend_first_due now rto stats (q ∷ front) p back wait due =
      rw (wait.0, resend_first_due now rto stats front p back wait.1 due)

  pub process_retransmissions_next :
      (s : ReliableConnectionState F) (now : ℕ)
      → (process_retransmissions s now).0.next_outgoing_sequence ≡ s.next_outgoing_sequence
  unfolding process_retransmissions
  process_retransmissions_next s now = refl
