-- ===== src/Protocol/Window/Delivery.antt =====
-- crates/protocol/src/protocol.rs: the receive window over a whole sequence of packets.
use riftnet_rust.Base.{
  ℕ, ◌+◌, ◌%◌, ◌^◌, ◌<◌, ◌≤◌, ◌≡◌, inl, inr, refl, Bool, true, false, none, some, List, [], ◌∷◌,
  ltb, ◌==◌, if◌then◌else◌, arith, max, count, bit_or, Bool-cases, ap, Option-cases, ◌/◌,
}
use riftnet_rust.Base.Bits.{bit, u32, ◌<<<◌, bit_and-one, bit-shr}
use riftnet_rust.Protocol.Sequence.{is_sequence_more_recent, wrapping_sub, half_range}
use riftnet_rust.Protocol.Window.{receive, advance, mark_behind}
use riftnet_rust.Protocol.Window.Spec.{Receiver, see, accept, accepted}
use riftnet_rust.Protocol.Window.Refine.{receive_refines}
use riftnet_rust.Protocol.Window.Bitfield.{Represents, to_bit, bit-one}

-- The packets that the code takes as new, out of a sequence of packets.
pub received : ℕ → ℕ → List ℕ → List ℕ
received h b [] = []
received h b (a ∷ rest) = elim (receive h b (a % 2 ^ 16)) [
  | none ↦ received h b rest
  | some (h', b') ↦ a ∷ received h' b' rest
]

-- Each packet is less than half of the range away from the highest one that came before it.
abbrev pub AllNear : ℕ → List ℕ → Type 0
AllNear top [] = Unit
AllNear top (a ∷ rest) = (a < top + half_range) × (top < a + half_range) × AllNear (max top a) rest

pub highest-accept :
    (r : Receiver) (a : ℕ) {r' : Receiver} → accept r a ≡ some r' → r'.highest ≡ max r.highest a
unfolding accept
highest-accept r a e = ground arith

accept-none-le : (r : Receiver) (a : ℕ) → accept r a ≡ none → a ≤ r.highest
unfolding accept
accept-none-le r a e = ground arith

-- Where the bitfield represents the receiver, over any sequence of packets each less than half of
-- the range away from the highest one before it, in any order and with repeats, the code takes
-- exactly the packets that the specification accepts.
pub received_refines :
    (r : Receiver) (h b : ℕ) (packets : List ℕ)
    → Represents r h b
    → AllNear r.highest packets
    → received h b packets ≡ accepted r packets
unfolding received accepted
received_refines r h b [] rep near = refl
received_refines r h b (a ∷ rest) rep near = elim (receive_refines rep a near.0 near.1) [
  | inl (e, f) ↦
      rw (e, f, received, accepted)
        (received_refines r h b rest rep (
          let same : max r.highest a ≡ r.highest = omega (arith, accept-none-le r a f) in
          rw same at near.2))
  | inr (r', h', b', e, f, rep') ↦
      rw (e, f, received, accepted)
        (ap (◌∷◌ a) (received_refines r' h' b' rest rep' (rw (highest-accept r a f) near.2)))
]

-- What holds of every receiver that a run reaches.
abbrev Sound : Receiver → Type 0
Sound r = (n : ℕ) → r.highest < n → r.seen n ≡ false

accept-Sound : (r : Receiver) (a : ℕ) {r' : Receiver} → Sound r → accept r a ≡ some r' → Sound r'
unfolding accept
accept-Sound r a s e n lt = ground (arith, s n)

accept_seen :
    (r : Receiver) (a n : ℕ) {r' : Receiver}
    → Sound r
    → accept r a ≡ some r'
    → (r.seen a ≡ false) × (r'.seen n ≡ see a r.seen n)
unfolding accept
accept_seen r a n s e = ground (arith, s a)

to_bit-le_one : (v : Bool) → to_bit v ≤ 1
to_bit-le_one true = omega arith
to_bit-le_one false = omega arith

count-accepted :
    (r : Receiver) (packets : List ℕ) (n : ℕ)
    → Sound r
    → count n (accepted r packets) + to_bit (r.seen n) ≤ 1
unfolding accepted
count-accepted r [] n s = omega (arith, to_bit-le_one (r.seen n))
count-accepted r (a ∷ rest) n s = elim (Option-cases (accept r a)) [
  | inl e ↦ rw (e, accepted) (count-accepted r rest n s)
  | inr (r', e) ↦
      rw (e, accepted)
        (ground (
          arith,
          count-accepted r' rest n (accept-Sound r a s e),
          accept_seen r a n s e,
          ap r.seen {x = a} {y = n},
        ))
]

-- Where the bitfield represents the receiver, over any sequence of packets each less than half of
-- the range away from the highest one before it, no packet is taken twice, and none that the
-- receiver had already seen is taken again.
pub received_once :
    (r : Receiver) (h b : ℕ) (packets : List ℕ) (n : ℕ)
    → Represents r h b
    → AllNear r.highest packets
    → count n (received h b packets) + to_bit (r.seen n) ≤ 1
received_once r h b packets n rep near =
    rw (received_refines r h b packets rep near) (count-accepted r packets n rep.bounded)

advance_zero : (d : ℕ) → advance 0 d ≡ 1
unfolding advance
advance_zero d = elim (Bool-cases (ltb d 32)) [
  | inl e ↦ rw e (ap (λ t. bit_or t 1) {x = u32 (0 <<< d)} {y = 0} (omega arith))
  | inr e ↦ rw e
]

mark_behind_32 : (b : ℕ) → mark_behind b 32 ≡ (if bit b 0 == 1 then none else some (bit_or b 1))
unfolding mark_behind
mark_behind_32 b = ground (arith, bit_and-one (b / 1), bit-shr b 0)

-- The first packet of a connection, with a number in the first half of the range, is taken, and
-- from then on the bitfield represents a receiver that has seen that packet alone.
pub receive_first :
    (s : ℕ)
    → 0 < s
    → s < half_range
    → (receive 0 0 s ≡ some (s, 1))
      × Represents (record { highest = 2 ^ 16 + s; seen = λ n. (2 ^ 16 + s) == n }) s 1
unfolding receive is_sequence_more_recent
receive_first s p q = (
  ground (arith, advance_zero (wrapping_sub s 0)),
  record {
    number = omega arith;
    far = omega arith;
    newest = ground arith;
    bounded = λ n lt. ground arith;
    window = λ d lt. ground (arith, bit-one d);
  },
)

-- A packet 32 behind the highest is judged by bit 0 of the bitfield, which stands for the highest
-- packet itself: where that bit is set the packet is refused, and where it is clear the packet is
-- taken and bit 0 is set in its place.
pub receive_32_behind :
    (h b s : ℕ)
    → h < 2 ^ 16
    → s < 2 ^ 16
    → wrapping_sub h s ≡ 32
    → receive h b s ≡ (if bit b 0 == 1 then none else some (h, bit_or b 1))
unfolding receive is_sequence_more_recent
receive_32_behind h b s hh hs e = ground (arith, mark_behind_32 b, ap (mark_behind b) e)

accept_again :
    (r : Receiver) (a : ℕ) {r' : Receiver}
    → r.seen r.highest ≡ true
    → accept r a ≡ some r'
    → accept r' a ≡ none
unfolding accept
accept_again r a newest e = ground arith

-- A packet that has just been taken is refused when it arrives again.
pub receive_again :
    {r : Receiver} {h b : ℕ} (rep : Represents r h b) (a h' b' : ℕ)
    → a < r.highest + half_range
    → r.highest < a + half_range
    → receive h b (a % 2 ^ 16) ≡ some (h', b')
    → receive h' b' (a % 2 ^ 16) ≡ none
receive_again {r} rep a h' b' above below e = elim (receive_refines rep a above below) [
  | inl (refused, _) ↦ cc
  | inr (r', g, c, e', f, rep') ↦
      let same = highest-accept r a f in
      ground (
        arith,
        receive_refines rep' a (omega (arith, same)) (omega (arith, same)),
        accept_again r a rep.newest f,
      )
]
