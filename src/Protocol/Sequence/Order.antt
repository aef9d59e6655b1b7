-- ===== src/Protocol/Sequence/Order.antt =====
-- crates/protocol/src/protocol.rs: what `is_sequence_more_recent` decides.
use riftnet_rust.Base.{ℕ, ◌+◌, ◌%◌, ◌^◌, ◌<◌, ◌≡◌, ◌≢◌, ◌↔◌, ◌⊎◌, true, false, arith, ltb}
use riftnet_rust.Protocol.Sequence.{is_sequence_more_recent, wrapping_sub, half_range}

-- It is the circular order: the distance from the second number up to the first, modulo 2^16, is
-- positive and less than half of the range.
pub more_recent_iff :
    (s1 s2 : ℕ)
    → s1 < 2 ^ 16
    → s2 < 2 ^ 16
    → (is_sequence_more_recent s1 s2 ≡ true)
      ↔ ((0 < wrapping_sub s1 s2) × (wrapping_sub s1 s2 < half_range))
unfolding is_sequence_more_recent
more_recent_iff s1 s2 h1 h2 = ground arith

-- Of two 16-bit numbers, one is more recent, or neither is and they are equal or half of the range
-- apart.
pub more_recent_cases :
    (s1 s2 : ℕ)
    → s1 < 2 ^ 16
    → s2 < 2 ^ 16
    → ((is_sequence_more_recent s1 s2 ≡ true) × (is_sequence_more_recent s2 s1 ≡ false) × (s1 ≢ s2))
      ⊎ ((is_sequence_more_recent s1 s2 ≡ false)
          × (is_sequence_more_recent s2 s1 ≡ true)
          × (s1 ≢ s2))
      ⊎ ((is_sequence_more_recent s1 s2 ≡ false)
          × (is_sequence_more_recent s2 s1 ≡ false)
          × ((s1 ≡ s2) ⊎ (wrapping_sub s1 s2 ≡ half_range)))
unfolding is_sequence_more_recent
more_recent_cases s1 s2 h1 h2 = ground arith

-- For unbounded numbers less than half of the range apart, comparing the 16-bit numbers compares them.
pub more_recent_of_lt :
    (a b : ℕ)
    → a < b + half_range
    → b < a + half_range
    → is_sequence_more_recent (a % 2 ^ 16) (b % 2 ^ 16) ≡ ltb b a
unfolding is_sequence_more_recent
more_recent_of_lt a b h k = ground arith
