-- ===== src/Protocol/Window.antt =====
-- crates/protocol/src/protocol.rs: the receive window, step 4 of `process_incoming_header`.
-- A shift by the width or more panics in a debug build; here, as in a release build, the shift is
-- by its amount modulo 32.
pub mod Spec
pub mod Bitfield
pub mod Refine
pub mod Delivery
use riftnet_rust.Base.{
  ℕ, ◌+◌, ◌-◌, ◌*◌, ◌/◌, ◌%◌, ◌^◌, ◌||◌, Bool, Option, none, some, ltb, ◌==◌, if◌then◌else◌,
  bit_and, bit_or,
}
use riftnet_rust.Base.Bits.{u32, ◌<<<◌, ◌>>>◌}
use riftnet_rust.Protocol.Sequence.{is_sequence_more_recent, wrapping_sub}

-- The bitfield after a packet `diff` ahead of the highest.
pub advance : ℕ → ℕ → ℕ
advance bits diff = if ltb diff 32 then bit_or (u32 (bits <<< diff)) 1 else 1

-- The bitfield after a packet `diff` behind the highest; `none` for one that is not new.
pub mark_behind : ℕ → ℕ → Option ℕ
mark_behind bits diff =
    if diff == 0 || ltb 32 diff
    then none
    else if bit_and (bits >>> (diff % 32)) 1 == 1
    then none
    else some (bit_or bits (u32 (1 <<< (diff % 32))))

-- The new highest number and bitfield, or `none` where the function returns false.
unfoldable pub receive : ℕ → ℕ → ℕ → Option (ℕ × ℕ)
unfolding advance mark_behind
receive highest bits sequence =
    if is_sequence_more_recent sequence highest
    then some (sequence, advance bits (wrapping_sub sequence highest))
    else elim (mark_behind bits (wrapping_sub highest sequence)) [
      | none ↦ none
      | some bits' ↦ some (highest, bits')
    ]
