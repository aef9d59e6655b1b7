-- ===== src/Protocol/Reliable.antt =====
-- crates/protocol/src/protocol.rs: the reliability state of a connection.
-- An `Instant` is a number of nanoseconds; `duration_since` stops at zero, as `-` does. Counters
-- wrap as in a release build.
pub mod Acks
pub mod Timeout
pub mod Incoming
pub mod Resend
use riftnet_rust.Base.{
  ℕ, zero, suc, ◌+◌, ◌-◌, ◌*◌, ◌/◌, ◌%◌, ◌^◌, ◌||◌, ◌&&◌, Bool, true, false, Option, none, some,
  List, [], ◌∷◌, ltb, leb, ◌==◌, if◌then◌else◌, bit_and, not,
}
use riftnet_rust.Base.Bits.{u32, ◌>>>◌}
use riftnet_rust.Float.{F32, clamp}
use riftnet_rust.Protocol.Packet.{ReliabilityPacketHeader}
use riftnet_rust.Protocol.Sequence.{is_sequence_more_recent, wrapping_sub}
use riftnet_rust.Protocol.Window.{receive}

pub record UnackedPacket : Type 0 where
  pub sequence : ℕ
  pub time_sent : ℕ
  pub payload : List ℕ
  pub retries : ℕ

pub record ReliableConnectionState (F : Type 0) : Type 0 where
  pub next_outgoing_sequence : ℕ
  pub highest_received_sequence : ℕ
  pub received_sequence_bitfield : ℕ
  pub smoothed_rtt_ms : F
  pub rtt_variance_ms : F
  pub retransmission_timeout_ms : F
  pub is_first_rtt_sample : Bool
  pub unacknowledged_packets : List UnackedPacket
  pub last_packet_received_time : ℕ
  pub has_pending_ack_to_send : Bool
  pub last_ack_flush_time : Option ℕ
  pub stats_retransmits : ℕ
  pub stats_ack_only_sent : ℕ

abbrev pub eq_bytes : List ℕ → List ℕ → Bool
eq_bytes [] [] = true
eq_bytes (x ∷ xs) (y ∷ ys) = x == y && eq_bytes xs ys
eq_bytes _ _ = false

-- Whether the header acknowledges the packet.
unfoldable pub is_acked : ReliabilityPacketHeader → UnackedPacket → Bool
is_acked header pkt =
    if pkt.sequence == header.ack
    then true
    else if is_sequence_more_recent header.ack pkt.sequence
    then (let diff = wrapping_sub header.ack pkt.sequence in
        if ltb 0 diff && leb diff 32
        then bit_and (header.ack_bitfield >>> (diff - 1)) 1 == 1
        else false)
    else false

-- A packet of the loop whose timeout has passed.
pub resend_packet : ℕ → UnackedPacket → UnackedPacket
resend_packet now pkt = record pkt { time_sent = now; retries = u32 (pkt.retries + 1) }

-- `PartialEq`: the time of sending is left out.
unfoldable pub eq_packet : UnackedPacket → UnackedPacket → Bool
eq_packet p q = p.sequence == q.sequence && (eq_bytes p.payload q.payload && p.retries == q.retries)

module _ {F : Type 0} ⦃f : F32 F⦄ where
  -- `now` is the instant at which the state is made.
  unfoldable pub new : ℕ → ReliableConnectionState F
  new now = record {
    next_outgoing_sequence = 1;
    highest_received_sequence = 0;
    received_sequence_bitfield = 0;
    smoothed_rtt_ms = f.lit 0 1;
    rtt_variance_ms = f.lit 0 1;
    retransmission_timeout_ms = f.lit 100 1;
    is_first_rtt_sample = true;
    unacknowledged_packets = [];
    last_packet_received_time = now;
    has_pending_ack_to_send = false;
    last_ack_flush_time = none;
    stats_retransmits = 0;
    stats_ack_only_sent = 0;
  }

  -- The duration from `earlier` to `later`, in milliseconds.
  abbrev pub elapsed_ms : ℕ → ℕ → F
  elapsed_ms later earlier = f.mul (f.as_secs_f32 (later - earlier)) (f.lit 1000 1)

  -- The two averages after a sample.
  smooth_rtt : ReliableConnectionState F → F → ReliableConnectionState F
  smooth_rtt s sample =
      if s.is_first_rtt_sample
      then record s {
        smoothed_rtt_ms = sample;
        rtt_variance_ms = f.mul sample (f.lit 1 2);
        is_first_rtt_sample = false;
      }
      else (let delta = f.sub sample s.smoothed_rtt_ms in
          record s {
            smoothed_rtt_ms = f.add s.smoothed_rtt_ms (f.mul (f.lit 1 8) delta);
            rtt_variance_ms =
                f.add s.rtt_variance_ms (f.mul (f.lit 1 4) (f.sub (f.abs delta) s.rtt_variance_ms));
          })

  unfoldable pub apply_rtt_sample : ReliableConnectionState F → F → ReliableConnectionState F
  unfolding smooth_rtt
  apply_rtt_sample s sample =
      let s' = smooth_rtt s sample in
      record s' {
        retransmission_timeout_ms =
            clamp (f.add s'.smoothed_rtt_ms (f.mul (f.lit 4 1) s'.rtt_variance_ms)) (f.lit 30 1)
              (f.lit 500 1);
      }

  unfoldable pub apply_rtt_samples : ReliableConnectionState F → List F → ReliableConnectionState F
  apply_rtt_samples s [] = s
  apply_rtt_samples s (x ∷ xs) = apply_rtt_samples (apply_rtt_sample s x) xs

  -- `retain_mut`: the packets that stay, and the samples of the acknowledged packets that were
  -- sent once.
  unfoldable pub process_acks :
      ReliabilityPacketHeader → ℕ → List UnackedPacket → List UnackedPacket × List F
  process_acks header now [] = ([], [])
  process_acks header now (pkt ∷ pkts) =
      let (kept, samples) = process_acks header now pkts in
      if is_acked header pkt
      then (kept, if pkt.retries == 0 then elapsed_ms now pkt.time_sent ∷ samples else samples)
      else (pkt ∷ kept, samples)

  -- Step 4: the receive window and the result.
  unfoldable pub update_receive_window :
      ReliableConnectionState F → ReliabilityPacketHeader → ReliableConnectionState F × Bool
  update_receive_window s header =
      elim (receive s.highest_received_sequence s.received_sequence_bitfield header.sequence) [
        | none ↦ (s, false)
        | some (highest, bits) ↦ (
          record s {
            highest_received_sequence = highest;
            received_sequence_bitfield = bits;
            has_pending_ack_to_send = true;
          },
          true,
        )
      ]

  unfoldable pub process_incoming_header :
      ReliableConnectionState F → ReliabilityPacketHeader → ℕ → ReliableConnectionState F × Bool
  process_incoming_header s header now =
      let (kept, samples) = process_acks header now s.unacknowledged_packets in
      update_receive_window
        (apply_rtt_samples
          (record s { last_packet_received_time = now; unacknowledged_packets = kept }) samples)
        header

  -- Exponential backoff.
  pub backed_off : F → F
  backed_off rto = f.minimum (f.mul rto (f.lit 3 2)) (f.lit 2000 1)

  -- The loop; each packet that is resent backs the timeout off for those after it. The result is
  -- the packets, the payloads to resend, the timeout and the counter.
  unfoldable pub resend_loop :
      ℕ → F → ℕ → List UnackedPacket → List UnackedPacket × List (List ℕ) × F × ℕ
  resend_loop now rto stats [] = ([], [], rto, stats)
  resend_loop now rto stats (pkt ∷ pkts) =
      let due = f.le rto (elapsed_ms now pkt.time_sent) in
      let (pkts', queue, rto', stats') =
        resend_loop now (if due then backed_off rto else rto)
          (if due then u32 (stats + 1) else stats) pkts in
      if due
      then (resend_packet now pkt ∷ pkts', pkt.payload ∷ queue, rto', stats')
      else (pkt ∷ pkts', queue, rto', stats')

  unfoldable pub process_retransmissions :
      ReliableConnectionState F → ℕ → ReliableConnectionState F × List (List ℕ)
  process_retransmissions s now =
      let (pkts, queue, rto, stats) =
        resend_loop now s.retransmission_timeout_ms s.stats_retransmits s.unacknowledged_packets in
      (
        record s {
          unacknowledged_packets = pkts;
          retransmission_timeout_ms = rto;
          stats_retransmits = stats;
        },
        queue,
      )

  unfoldable pub is_timed_out : ReliableConnectionState F → ℕ → ℕ → Bool
  is_timed_out s now timeout = ltb timeout (now - s.last_packet_received_time)
