-- ===== src/Tests/Reliability.antt =====
-- The reliability state on concrete packets and headers.
use riftnet_rust.Base.{
  ℕ, ◌+◌, ◌-◌, ◌<◌, ◌≤◌, ◌≡◌, ◌↔◌, ◌⊎◌, refl, true, false, not, none, [], ◌∷◌, keep_if, length,
  arith,
}
use riftnet_rust.Base.Bits.{bit, u32}
use riftnet_rust.Protocol.Packet.{ReliabilityPacketHeader}
use riftnet_rust.Protocol.Reliable.{
  UnackedPacket, ReliableConnectionState, is_acked, new, process_incoming_header,
  process_retransmissions,
}
use riftnet_rust.Protocol.Reliable.Acks.{is_acked_iff}
use riftnet_rust.Protocol.Reliable.Incoming.{Windowed, process_incoming_header_lem}
use riftnet_rust.Protocol.Reliable.Resend.{backed_after, Resends, process_retransmissions-Resends}
use riftnet_rust.Protocol.Reliable.Timeout.{Bounded, timeout-Bounded}
use riftnet_rust.Tests.{thousandths, thousandths-IsF32}

abbrev sent : ℕ → ℕ → UnackedPacket
sent sequence time = record {
  sequence = sequence;
  time_sent = time;
  payload = 1 ∷ sequence ∷ [];
  retries = 0;
}

abbrev header : ℕ → ℕ → ℕ → ReliabilityPacketHeader
header sequence ack bits = record { sequence = sequence; ack = ack; ack_bitfield = bits }

abbrev six : ℕ
six = 6

abbrev nine : ℕ
nine = 9

is_acked_iff_example :
    (is_acked (header 0 9 4) (sent 6 0) ≡ true)
    ↔ ((six ≡ nine) ⊎ ((six < nine) × (nine ≤ six + 32) × (bit 4 (nine - six - 1) ≡ 1)))
is_acked_iff_example =
    is_acked_iff (header 0 9 4) (sent 6 0) nine six refl refl (omega arith) (omega arith)

-- A state in which packets 3 and 4 wait for an acknowledgement, and packet 5 has arrived.
abbrev waiting : ReliableConnectionState ℕ
waiting = record {
  next_outgoing_sequence = 5;
  highest_received_sequence = 5;
  received_sequence_bitfield = 1;
  smoothed_rtt_ms = 0;
  rtt_variance_ms = 0;
  retransmission_timeout_ms = 100000;
  is_first_rtt_sample = true;
  unacknowledged_packets = sent 3 0 ∷ sent 4 50000000 ∷ [];
  last_packet_received_time = 0;
  has_pending_ack_to_send = false;
  last_ack_flush_time = none;
  stats_retransmits = 0;
  stats_ack_only_sent = 0;
}

process_incoming_header_example :
    let (t, fresh) = process_incoming_header waiting (header 6 3 0) 60000000 in
    Windowed waiting t 6 fresh
    × (t.unacknowledged_packets
        ≡ keep_if (λ p. not (is_acked (header 6 3 0) p)) (sent 3 0 ∷ sent 4 50000000 ∷ []))
    × (t.last_packet_received_time ≡ 60000000)
    × (t.next_outgoing_sequence ≡ 5)
    × (t.stats_retransmits ≡ 0)
process_incoming_header_example = process_incoming_header_lem waiting (header 6 3 0) 60000000

-- At 120 ms the first packet is due, and at 90 ms none.
process_retransmissions-Resends_example :
    let (t, queue) = process_retransmissions waiting 120000000 in
    Resends 120000000 waiting.retransmission_timeout_ms 0
      (sent 3 0 ∷ sent 4 50000000 ∷ [])
      t.unacknowledged_packets
      queue
    × (t.retransmission_timeout_ms ≡ backed_after (length queue) waiting.retransmission_timeout_ms)
    × (t.stats_retransmits ≡ u32 (0 + length queue))
process_retransmissions-Resends_example =
    process_retransmissions-Resends waiting 120000000 (omega arith)

timeout-Bounded_example :
    Bounded thousandths-IsF32 (new 60000000)
    × Bounded thousandths-IsF32 (process_incoming_header waiting (header 6 3 0) 60000000).0
    × Bounded thousandths-IsF32 (process_retransmissions waiting 60000000).0
timeout-Bounded_example = timeout-Bounded thousandths-IsF32 waiting (header 6 3 0) 60000000 refl
