-- ===== src/Protocol/Sequence.antt =====
-- crates/protocol/src/protocol.rs: the order of 16-bit sequence numbers that wrap.
pub mod Order
use riftnet_rust.Base.{ℕ, ◌+◌, ◌-◌, ◌%◌, ◌^◌, ◌&&◌, ◌||◌, Bool, ltb}

-- `u16::wrapping_sub`.
abbrev pub wrapping_sub : ℕ → ℕ → ℕ
wrapping_sub a b = (a + 2 ^ 16 - b) % 2 ^ 16

abbrev pub half_range : ℕ
half_range = 0x8000

-- The plain subtraction runs only if `s1 > s2`.
unfoldable pub is_sequence_more_recent : ℕ → ℕ → Bool
is_sequence_more_recent s1 s2 =
    (ltb s2 s1 && ltb (s1 - s2) half_range) || (ltb s1 s2 && ltb half_range (wrapping_sub s2 s1))
