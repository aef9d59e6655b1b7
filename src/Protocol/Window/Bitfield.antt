-- ===== src/Protocol/Window/Bitfield.antt =====
-- crates/protocol/src/protocol.rs: the bits of the receive window.
use riftnet_rust.Base.{
  ℕ, zero, suc, ◌-◌, ◌%◌, ◌^◌, ◌<◌, ◌≤◌, ◌≡◌, refl, ap, Bool, true, false, ◌==◌, arith, bit_or, max,
}
use riftnet_rust.Base.Bits.{
  bit, u32, ◌<<<◌, bit-mod, bit-bit_or, bit-shl_lt, bit-shl_ge, bit-zero, bit-pow_self, bit-pow_ne,
}
use riftnet_rust.Protocol.Window.{advance}
use riftnet_rust.Protocol.Window.Spec.{Receiver}

abbrev pub to_bit : Bool → ℕ
to_bit true = 1
to_bit false = 0

-- Bit `d` of the bitfield tells whether the packet `d` behind the highest has arrived.
pub record Represents (r : Receiver) (highest bits : ℕ) : Type 0 where
  pub number : highest ≡ r.highest % 2 ^ 16
  pub far : 32 ≤ r.highest
  pub newest : r.seen r.highest ≡ true
  pub bounded : (n : ℕ) → r.highest < n → r.seen n ≡ false
  pub window : (d : ℕ) → d < 32 → bit bits d ≡ to_bit (r.seen (r.highest - d))

pub bit-one : (i : ℕ) → bit 1 i ≡ to_bit (i == 0)
bit-one zero = refl
bit-one (suc i) = ground (arith, bit-zero i)

pub bit-advance_lt : (bits diff i : ℕ) → 0 < i → i < diff → i < 32 → bit (advance bits diff) i ≡ 0
unfolding advance
bit-advance_lt bits diff i p q r = ground (
  arith,
  bit-bit_or (u32 (bits <<< diff)) 1 i,
  bit-mod (bits <<< diff) 32 i r,
  bit-shl_lt bits diff i q,
  bit-one i,
)

pub bit-advance_zero : (bits diff : ℕ) → bit (advance bits diff) 0 ≡ 1
unfolding advance
bit-advance_zero bits diff = ground (arith, bit-bit_or (u32 (bits <<< diff)) 1 0)

pub bit-advance_ge :
    (bits diff i : ℕ)
    → 0 < diff
    → diff ≤ i
    → i < 32
    → bit (advance bits diff) i ≡ bit bits (i - diff)
unfolding advance
bit-advance_ge bits diff i p q r = ground (
  arith,
  bit-bit_or (u32 (bits <<< diff)) 1 i,
  bit-mod (bits <<< diff) 32 i r,
  bit-shl_ge bits diff i (i - diff) (omega arith),
  bit-one i,
)

pub bit-mark :
    (bits d i : ℕ)
    → d < 32
    → i < 32
    → bit (bit_or bits (u32 (1 <<< d))) i ≡ max (bit bits i) (to_bit (i == d))
bit-mark bits d i h k = ground (
  arith,
  bit-bit_or bits (u32 (1 <<< d)) i,
  bit-mod (1 <<< d) 32 i k,
  one_shl,
  bit-pow_self d,
  bit-pow_ne d i,
)
  where
    one_shl : bit (1 <<< d) i ≡ bit (2 ^ d) i
    one_shl = ap (λ x. bit x i) {x = 1 <<< d} {y = 2 ^ d} (omega arith)
