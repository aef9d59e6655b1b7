-- ===== src/Protocol/Reliable/Timeout.antt =====
-- crates/protocol/src/protocol.rs: the bounds of the retransmission timeout.
use riftnet_rust.Base.{ℕ, ◌+◌, ◌≡◌, inl, inr, false, List, [], ◌∷◌, arith, Bool-cases}
use riftnet_rust.Base.Bits.{u32}
use riftnet_rust.Float.{F32, IsF32, clamp}
use riftnet_rust.Protocol.Packet.{ReliabilityPacketHeader}
use riftnet_rust.Protocol.Reliable.{
  UnackedPacket, ReliableConnectionState, new, apply_rtt_sample, apply_rtt_samples,
  process_incoming_header, resend_loop, process_retransmissions, elapsed_ms, backed_off,
  update_receive_window,
}

module _ {F : Type 0} ⦃f : F32 F⦄ (laws : IsF32 f) where
  -- What a clamp between 30 and 500 gives, a NaN included.
  abbrev pub InSampleRange : F → Type 0
  InSampleRange rto = (f.lt rto (f.lit 30 1) ≡ false) × (f.lt (f.lit 500 1) rto ≡ false)

  clamp-InSampleRange : (x : F) → InSampleRange (clamp x (f.lit 30 1) (f.lit 500 1))
  unfolding clamp
  clamp-InSampleRange x =
      ground (arith, laws.lt_irrefl (f.lit 30 1), laws.lt_irrefl (f.lit 500 1), laws.lit_order)

  -- After a sample the timeout is at least 30 and at most 500 milliseconds.
  pub apply_rtt_sample-InSampleRange :
      (s : ReliableConnectionState F) (sample : F)
      → InSampleRange (apply_rtt_sample s sample).retransmission_timeout_ms
  unfolding apply_rtt_sample
  apply_rtt_sample-InSampleRange s sample = clamp-InSampleRange _

  abbrev pub Bounded : ReliableConnectionState F → Type 0
  Bounded s = f.lt (f.lit 2000 1) s.retransmission_timeout_ms ≡ false

  apply_rtt_samples-Bounded :
      (s : ReliableConnectionState F) (samples : List F)
      → Bounded s
      → Bounded (apply_rtt_samples s samples)
  unfolding apply_rtt_samples
  apply_rtt_samples-Bounded s [] b = b
  apply_rtt_samples-Bounded s (x ∷ xs) b =
      apply_rtt_samples-Bounded (apply_rtt_sample s x) xs
        (laws.lt_2000 _ (apply_rtt_sample-InSampleRange s x).1)

  backed_off-bounded : (rto : F) → f.lt (f.lit 2000 1) (backed_off rto) ≡ false
  unfolding backed_off
  backed_off-bounded rto = laws.minimum-le _ _

  resend_loop-bounded :
      (now : ℕ) (rto : F) (stats : ℕ) (pkts : List UnackedPacket)
      → f.lt (f.lit 2000 1) rto ≡ false
      → f.lt (f.lit 2000 1) (resend_loop now rto stats pkts).2 ≡ false
  unfolding resend_loop
  resend_loop-bounded now rto stats [] b = b
  resend_loop-bounded now rto stats (pkt ∷ pkts) b =
      elim (Bool-cases (f.le rto (elapsed_ms now pkt.time_sent))) [
        | inl due ↦ rw due (
            resend_loop-bounded now (backed_off rto) (u32 (stats + 1)) pkts
              (backed_off-bounded rto))
        | inr waits ↦ rw waits (resend_loop-bounded now rto stats pkts b)
      ]

  update_receive_window-timeout :
      (s : ReliableConnectionState F) (header : ReliabilityPacketHeader)
      → (update_receive_window s header).0.retransmission_timeout_ms ≡ s.retransmission_timeout_ms
  unfolding update_receive_window
  update_receive_window-timeout s header = ground arith

  -- Under the laws of the arithmetic, the timeout of a new state is at most 2000 milliseconds, and
  -- where it is, neither an incoming header nor a pass of retransmissions takes it above.
  pub timeout-Bounded :
      (s : ReliableConnectionState F) (header : ReliabilityPacketHeader) (now : ℕ)
      → Bounded s
      → Bounded (new now)
        × Bounded (process_incoming_header s header now).0
        × Bounded (process_retransmissions s now).0
  unfolding new process_incoming_header process_retransmissions
  timeout-Bounded s header now b = (
    laws.lit_start,
    rw update_receive_window-timeout (apply_rtt_samples-Bounded _ _ b),
    resend_loop-bounded now _ _ _ b,
  )
