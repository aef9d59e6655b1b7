-- ===== src/Protocol/Reliable/Acks.antt =====
-- crates/protocol/src/protocol.rs: which packets a header acknowledges.
use riftnet_rust.Base.{
  ℕ, ◌+◌, ◌-◌, ◌%◌, ◌^◌, ◌<◌, ◌≤◌, ◌≡◌, ◌↔◌, ◌⊎◌, refl, Bool, true, not, ◌&&◌, List, [], ◌∷◌, map,
  ap, ◌∙◌, ◌==◌, keep_if, arith, bit_and,
}
use riftnet_rust.Base.Bits.{bit, ◌>>>◌, bit_and-one, bit-shr}
use riftnet_rust.Float.{F32}
use riftnet_rust.Protocol.Packet.{ReliabilityPacketHeader}
use riftnet_rust.Protocol.Sequence.{wrapping_sub, half_range}
use riftnet_rust.Protocol.Sequence.Order.{more_recent_of_lt}
use riftnet_rust.Protocol.Window.Spec.{Receiver}
use riftnet_rust.Protocol.Window.Bitfield.{Represents}
use riftnet_rust.Protocol.Reliable.{UnackedPacket, is_acked, process_acks, elapsed_ms}

ack_bit : (bits k : ℕ) → bit_and (bits >>> k) 1 ≡ bit bits k
ack_bit bits k = bit_and-one (bits >>> k) ∙ bit-shr bits k

-- Over sequence numbers that do not wrap, less than half of the range apart: a header acknowledges
-- the packet that it names, and the packet that is k + 1 before it exactly if bit k of its bitfield
-- is set, for k below 32.
pub is_acked_iff :
    (header : ReliabilityPacketHeader) (pkt : UnackedPacket) (a p : ℕ)
    → header.ack ≡ a % 2 ^ 16
    → pkt.sequence ≡ p % 2 ^ 16
    → a < p + half_range
    → p < a + half_range
    → (is_acked header pkt ≡ true)
      ↔ ((p ≡ a) ⊎ ((p < a) × (a ≤ p + 32) × (bit header.ack_bitfield (a - p - 1) ≡ 1)))
unfolding is_acked
is_acked_iff header pkt a p e d above below =
    rw (e, d)
      (ground (
        arith,
        more_recent_of_lt a p above below,
        diff,
        ap (λ k. bit_and (header.ack_bitfield >>> (k - 1)) 1)
            {x = wrapping_sub (a % 2 ^ 16) (p % 2 ^ 16)} {y = a - p},
        ack_bit header.ack_bitfield (a - p - 1),
      ))
  where
    diff : p ≤ a → wrapping_sub (a % 2 ^ 16) (p % 2 ^ 16) ≡ a - p
    diff le = omega arith

-- Take a header that names the highest number of a receiver and has the bitfield that represents
-- it, whose bit k stands for the packet k before the highest. The packet k + 1 before the highest,
-- for k below 32, counts as acknowledged exactly if the receiver has seen the packet after it.
pub acked_by_successor :
    (r : Receiver) (header : ReliabilityPacketHeader) (pkt : UnackedPacket) (k : ℕ)
    → Represents r header.ack header.ack_bitfield
    → k < 32
    → pkt.sequence ≡ (r.highest - k - 1) % 2 ^ 16
    → is_acked header pkt ≡ r.seen (r.highest - k)
acked_by_successor r header pkt k rep small e = ground (
  arith,
  is_acked_iff header pkt r.highest (r.highest - k - 1) rep.number e (omega (arith, rep.far))
      (omega arith),
  rep.window k small,
  same_bit,
  rep.far,
)
  where
    same_bit :
        bit header.ack_bitfield (r.highest - (r.highest - k - 1) - 1) ≡ bit header.ack_bitfield k
    same_bit =
        ap (bit header.ack_bitfield) {x = r.highest - (r.highest - k - 1) - 1} {y = k}
          (omega (arith, rep.far))

abbrev pub sampled : ReliabilityPacketHeader → UnackedPacket → Bool
sampled header pkt = is_acked header pkt && pkt.retries == 0

module _ {F : Type 0} ⦃f : F32 F⦄ where
  -- The retained packets are those that the header does not acknowledge, in order, and there is a
  -- round-trip sample for each acknowledged packet that was never resent, in order.
  pub process_acks_lem :
      (header : ReliabilityPacketHeader) (now : ℕ) (pkts : List UnackedPacket)
      → ((process_acks {F = F} header now pkts).0 ≡ keep_if (λ p. not (is_acked header p)) pkts)
        × ((process_acks {F = F} header now pkts).1
            ≡ map (λ p. elapsed_ms now p.time_sent) (keep_if (sampled header) pkts))
  unfolding process_acks
  process_acks_lem header now [] = (refl, refl)
  process_acks_lem header now (pkt ∷ pkts) = ground (arith, process_acks_lem header now pkts)
