-- ===== src/Protocol/Window/Refine.antt =====
-- crates/protocol/src/protocol.rs: the receive window implements its specification.
use riftnet_rust.Base.{
  ℕ, ◌+◌, ◌-◌, ◌%◌, ◌^◌, ◌<◌, ◌≤◌, ◌≡◌, ◌⊎◌, inl, inr, refl, ap, ◌∙◌, false, ◌&&◌, not, none, some,
  ltb, leb, ◌==◌, arith, bit_and, bit_or, Bool-cases, ==→eq,
}
use native.Mathlib.Nat.{mod-eq_of_lt}
use native.Mathlib.Decide.{dec_lt}
use riftnet_rust.Base.Bits.{bit, u32, ◌<<<◌, ◌>>>◌, bit_and-one, bit-shr}
use riftnet_rust.Protocol.Sequence.{wrapping_sub, half_range}
use riftnet_rust.Protocol.Sequence.Order.{more_recent_of_lt}
use riftnet_rust.Protocol.Window.{advance, mark_behind, receive}
use riftnet_rust.Protocol.Window.Spec.{Receiver, see, accept}
use riftnet_rust.Protocol.Window.Bitfield.{
  to_bit, Represents, bit-advance_lt, bit-advance_zero, bit-advance_ge, bit-mark,
}

module _ {r : Receiver} {h b : ℕ} (rep : Represents r h b) (a : ℕ) where
  ahead-Represents :
      r.highest < a
      → Represents
          (record { highest = a; seen = see a r.seen })
          (a % 2 ^ 16)
          (advance b (a - r.highest))
  ahead-Represents lt = record {
    number = refl;
    far = omega (arith, rep.far);
    newest = ground arith;
    bounded = λ n above. ground (arith, rep.bounded n (omega arith));
    window = λ d small. elim (Bool-cases (d == 0)) [
      | inl e ↦ ground (
        arith,
        bit-advance_zero b (a - r.highest),
        ap (bit (advance b (a - r.highest))) (==→eq d 0 e),
      )
      | inr e ↦ elim (Bool-cases (ltb d (a - r.highest))) [
        | inl less ↦ ground (
          arith,
          bit-advance_lt b (a - r.highest) d (ground arith) (ground arith) small,
          rep.bounded (a - d) (ground arith),
        )
        | inr more ↦ ground (
          arith,
          bit-advance_ge b (a - r.highest) d (ground arith) (ground arith) small,
          rep.window (d - (a - r.highest)) (ground arith),
          ap r.seen (same_packet d small (ground arith)),
        )
      ]
    ];
  }
    where
      same_packet : (d : ℕ) → d < 32 → a - r.highest ≤ d → r.highest - (d - (a - r.highest)) ≡ a - d
      same_packet d small le = omega (arith, rep.far)

  receive_ahead :
      r.highest < a
      → a < r.highest + half_range
      → receive h b (a % 2 ^ 16) ≡ some (a % 2 ^ 16, advance b (a - r.highest))
  unfolding receive
  receive_ahead lt near = rw rep.number (ground (arith, more_recent_of_lt a r.highest, wrap_diff))
    where
      wrap_diff :
          advance b (wrapping_sub (a % 2 ^ 16) (r.highest % 2 ^ 16)) ≡ advance b (a - r.highest)
      wrap_diff = ap (advance b) (omega arith)

  receive_behind :
      a ≤ r.highest
      → r.highest < a + half_range
      → receive h b (a % 2 ^ 16)
        ≡ elim (mark_behind b (r.highest - a)) [ none ↦ none | some b' ↦ some (h, b') ]
  unfolding receive
  receive_behind le near =
      rw (rep.number) (ground (arith, more_recent_of_lt a r.highest, wrap_diff))
    where
      wrap_diff :
          mark_behind b (wrapping_sub (r.highest % 2 ^ 16) (a % 2 ^ 16))
          ≡ mark_behind b (r.highest - a)
      wrap_diff =
          ap (mark_behind b) {x = wrapping_sub (r.highest % 2 ^ 16) (a % 2 ^ 16)}
            {y = r.highest - a} (omega arith)

  -- The test of the bit: it is set exactly if the packet has been seen.
  marked : (d : ℕ) → d ≤ 32 → bit_and (b >>> (d % 32)) 1 ≡ to_bit (r.seen (r.highest - d % 32))
  marked d small =
      bit_and-one (b >>> (d % 32)) ∙ bit-shr b (d % 32) ∙ rep.window (d % 32) (omega arith)

  mark_new :
      a ≤ r.highest
      → r.highest - a ≤ 31
      → r.seen a ≡ false
      → mark_behind b (r.highest - a) ≡ some (bit_or b (u32 (1 <<< (r.highest - a))))
  unfolding mark_behind
  mark_new le small new = ground (
    arith,
    marked (r.highest - a) (omega arith),
    rep.newest,
    far_sub,
    mod-eq_of_lt {n = r.highest - a} {m = 32} (omega arith),
  )
    where
      far_sub : r.highest - (r.highest - a) ≡ a
      far_sub = omega arith

  mark_old :
      a ≤ r.highest
      → leb (r.highest - a) 31 && not (r.seen a) ≡ false
      → mark_behind b (r.highest - a) ≡ none
  unfolding mark_behind
  mark_old le old = elim (dec_lt 32 (r.highest - a)) [
    | yes p ↦ ground arith
    | no p ↦ ground (arith, marked (r.highest - a) (omega arith), rep.newest, far_sub)
  ]
    where
      far_sub : r.highest - (r.highest - a) ≡ a
      far_sub = omega arith

  behind-Represents :
      a ≤ r.highest
      → r.highest - a < 32
      → Represents (record r { seen = see a r.seen }) h (bit_or b (u32 (1 <<< (r.highest - a))))
  behind-Represents le small = record {
    number = rep.number;
    far = rep.far;
    newest = ground (arith, rep.newest);
    bounded = λ n above. ground (arith, rep.bounded n above);
    window =
        λ d lt. ground (arith, bit-mark b (r.highest - a) d small lt, rep.window d lt, rep.far);
  }

  -- Where the bitfield represents the receiver: on any packet less than half of the range away from
  -- the highest, the code refuses it as the specification does, or both take it and the new
  -- bitfield represents the new receiver.
  pub receive_refines :
      a < r.highest + half_range
      → r.highest < a + half_range
      → ((receive h b (a % 2 ^ 16) ≡ none) × (accept r a ≡ none))
        ⊎ ((r' : Receiver) × (h' : ℕ) × (b' : ℕ) × (receive h b (a % 2 ^ 16) ≡ some (h', b'))
            × (accept r a ≡ some r')
            × Represents r' h' b')
  unfolding accept
  receive_refines above below = elim (Bool-cases (ltb r.highest a)) [
    | inl ahead ↦ inr (
      record { highest = a; seen = see a r.seen },
      a % 2 ^ 16,
      advance b (a - r.highest),
      receive_ahead (ground arith) above,
      ground arith,
      ahead-Represents (ground arith),
    )
    | inr behind ↦ elim (Bool-cases (leb (r.highest - a) 31 && not (r.seen a))) [
      | inl new ↦ inr (
        record r { seen = see a r.seen },
        h,
        bit_or b (u32 (1 <<< (r.highest - a))),
        rw (receive_behind (ground arith) below)
            (rw (mark_new (ground arith) (ground arith) (ground arith))),
        ground arith,
        behind-Represents (ground arith) (ground arith),
      )
      | inr old ↦ inl (
        rw (receive_behind (ground arith) below) (rw (mark_old (ground arith) (ground arith))),
        ground arith,
      )
    ]
  ]
