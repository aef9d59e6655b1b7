-- ===== src/Protocol/Reliable/Incoming.antt =====
-- crates/protocol/src/protocol.rs: what `process_incoming_header` does to the state.
use riftnet_rust.Base.{
  ℕ, ◌+◌, ◌%◌, ◌^◌, ◌<◌, ◌≡◌, ◌⊎◌, Bool, true, false, not, none, some, List, [], ◌∷◌, keep_if,
  arith,
}
use riftnet_rust.Float.{F32}
use riftnet_rust.Protocol.Packet.{ReliabilityPacketHeader}
use riftnet_rust.Protocol.Sequence.{half_range}
use riftnet_rust.Protocol.Window.{receive}
use riftnet_rust.Protocol.Window.Spec.{Receiver}
use riftnet_rust.Protocol.Window.Bitfield.{Represents}
use riftnet_rust.Protocol.Window.Delivery.{receive_again}
use riftnet_rust.Protocol.Reliable.{
  ReliableConnectionState, is_acked, apply_rtt_sample, apply_rtt_samples, process_acks,
  update_receive_window, process_incoming_header,
}
use riftnet_rust.Protocol.Reliable.Acks.{process_acks_lem}

module _ {F : Type 0} ⦃f : F32 F⦄ where
  -- The samples change the timing alone.
  record SameButTiming (s t : ReliableConnectionState F) : Type 0 where
    next : t.next_outgoing_sequence ≡ s.next_outgoing_sequence
    highest : t.highest_received_sequence ≡ s.highest_received_sequence
    bits : t.received_sequence_bitfield ≡ s.received_sequence_bitfield
    unacked : t.unacknowledged_packets ≡ s.unacknowledged_packets
    received_time : t.last_packet_received_time ≡ s.last_packet_received_time
    pending : t.has_pending_ack_to_send ≡ s.has_pending_ack_to_send
    retransmits : t.stats_retransmits ≡ s.stats_retransmits

  apply_rtt_sample-SameButTiming :
      (s : ReliableConnectionState F) (x : F) → SameButTiming s (apply_rtt_sample s x)
  unfolding apply_rtt_sample
  apply_rtt_sample-SameButTiming s x = ground arith

  apply_rtt_samples-SameButTiming :
      (s : ReliableConnectionState F) (xs : List F) → SameButTiming s (apply_rtt_samples s xs)
  unfolding apply_rtt_samples
  apply_rtt_samples-SameButTiming s [] = ground arith
  apply_rtt_samples-SameButTiming s (x ∷ xs) = ground (
    arith,
    apply_rtt_sample-SameButTiming s x,
    apply_rtt_samples-SameButTiming (apply_rtt_sample s x) xs,
  )

  -- What the window step makes of a header: the result says whether the packet was new.
  pub record Windowed (s t : ReliableConnectionState F) (sequence : ℕ) (fresh : Bool) : Type 0 where
    pub outcome :
        ((fresh ≡ true)
          × (t.has_pending_ack_to_send ≡ true)
          × (receive s.highest_received_sequence s.received_sequence_bitfield sequence
              ≡ some (t.highest_received_sequence, t.received_sequence_bitfield)))
        ⊎ ((fresh ≡ false)
            × (t.has_pending_ack_to_send ≡ s.has_pending_ack_to_send)
            × (receive s.highest_received_sequence s.received_sequence_bitfield sequence ≡ none)
            × (t.highest_received_sequence ≡ s.highest_received_sequence)
            × (t.received_sequence_bitfield ≡ s.received_sequence_bitfield))

  update_receive_window_lem :
      (s : ReliableConnectionState F) (header : ReliabilityPacketHeader)
      → let (t, fresh) = update_receive_window s header in
        Windowed s t header.sequence fresh
        × (t.unacknowledged_packets ≡ s.unacknowledged_packets)
        × (t.last_packet_received_time ≡ s.last_packet_received_time)
        × (t.next_outgoing_sequence ≡ s.next_outgoing_sequence)
        × (t.stats_retransmits ≡ s.stats_retransmits)
  unfolding update_receive_window
  update_receive_window_lem s header = ground arith

  -- Every header, new or not, is noted as life of the peer and drops exactly the packets that it
  -- acknowledges; it changes the receive window only if the packet is new, and then an
  -- acknowledgement is due. Numbers to be sent and the resend counter stay.
  pub process_incoming_header_lem :
      (s : ReliableConnectionState F) (header : ReliabilityPacketHeader) (now : ℕ)
      → let (t, fresh) = process_incoming_header s header now in
        Windowed s t header.sequence fresh
        × (t.unacknowledged_packets
            ≡ keep_if (λ p. not (is_acked header p)) s.unacknowledged_packets)
        × (t.last_packet_received_time ≡ now)
        × (t.next_outgoing_sequence ≡ s.next_outgoing_sequence)
        × (t.stats_retransmits ≡ s.stats_retransmits)
  unfolding process_incoming_header
  process_incoming_header_lem s header now =
      let acks = process_acks {F = F} header now s.unacknowledged_packets in
      let noted = record s { last_packet_received_time = now; unacknowledged_packets = acks.0 } in
      ground (
        arith,
        process_acks_lem {F = F} header now s.unacknowledged_packets,
        apply_rtt_samples-SameButTiming noted acks.1,
        update_receive_window_lem (apply_rtt_samples noted acks.1) header,
      )

  -- Where the bitfield represents what has arrived, a header whose number is less than half of the
  -- range away from the highest one is reported as a duplicate when it arrives again with the same
  -- number, whatever it acknowledges.
  pub duplicate_refused :
      (s : ReliableConnectionState F) (first again : ReliabilityPacketHeader) (now later : ℕ)
      (r : Receiver) (a : ℕ)
      → Represents r s.highest_received_sequence s.received_sequence_bitfield
      → a < r.highest + half_range
      → r.highest < a + half_range
      → first.sequence ≡ a % 2 ^ 16
      → again.sequence ≡ a % 2 ^ 16
      → (process_incoming_header (process_incoming_header s first now).0 again later).1 ≡ false
  duplicate_refused s first again now later r a rep above below e d =
      let t = (process_incoming_header s first now).0 in
      ground (
        arith,
        process_incoming_header_lem s first now,
        process_incoming_header_lem t again later,
        receive_again rep a t.highest_received_sequence t.received_sequence_bitfield above below,
      )
