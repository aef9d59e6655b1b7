-- ===== src/Base/Powers.antt =====
-- The test for a power of two, on the bits of a number.
use Prim.Native.Nat.{ℕ, zero, suc, ◌-◌, ◌*◌, ◌/◌, ◌%◌, ◌^◌, ◌≤◌, ◌<◌, bit_and}
use mathlib.Core.Path.{◌≡◌, refl, ap}
use native.Mathlib.Nat.{le_refl, pow-suc}
use native.Mathlib.Omega.{arith}
use native.Mathlib.Decide.{ℕ_discrete}
use riftnet_rust.Base.Bits.{half_pow, bit_and_digit, pow_pos}

and_self_below : (bound x : ℕ) → x < bound → bit_and x x ≡ x
and_self_below zero x h = elim h [ ]
and_self_below (suc bound) x h = elim (ℕ_discrete x 0) [
  | yes e ↦ rw e refl
  | no positive ↦ omega (arith, bit_and_digit x x, and_self_below bound (x / 2) (omega arith))
]

pub bit_and_self : (x : ℕ) → bit_and x x ≡ x
bit_and_self x = and_self_below (suc x) x (omega arith)

-- `n & (n - 1)` clears the lowest bit that is set; one step of the search for the power.
clear_even : (n : ℕ) → 0 < n → n % 2 ≡ 0 → bit_and n (n - 1) ≡ 2 * bit_and (n / 2) (n / 2 - 1)
clear_even n p e = omega (
  arith,
  bit_and_digit n (n - 1),
  ap (bit_and (n / 2)) {x = (n - 1) / 2} {y = n / 2 - 1} (omega arith),
)

clear_odd : (n : ℕ) → n % 2 ≡ 1 → bit_and n (n - 1) ≡ n - 1
clear_odd n e = omega (
  arith,
  bit_and_digit n (n - 1),
  ap (bit_and (n / 2)) {x = (n - 1) / 2} {y = n / 2} (omega arith),
  bit_and_self (n / 2),
)

power_of_two_fuel : (f n : ℕ) → n ≤ f → 0 < n → bit_and n (n - 1) ≡ 0 → (k : ℕ) × (n ≡ 2 ^ k)
power_of_two_fuel zero n h p e = absurd (omega arith)
power_of_two_fuel (suc f) n h p e = elim (ℕ_discrete (n % 2) 0) [
  | yes even ↦
      let (k, half) =
        power_of_two_fuel f (n / 2) (omega arith) (omega arith)
          (omega (arith, clear_even n p even)) in
      (suc k, omega (arith, half, pow-suc 2 k))
  | no odd ↦ (0, omega (arith, clear_odd n (omega arith)))
]

pub power_of_two_lem : (n : ℕ) → 0 < n → bit_and n (n - 1) ≡ 0 → (k : ℕ) × (n ≡ 2 ^ k)
power_of_two_lem n p e = power_of_two_fuel n n (le_refl n) p e

pub bit_and-pow_pred : (k : ℕ) → bit_and (2 ^ k) (2 ^ k - 1) ≡ 0
bit_and-pow_pred zero = refl
bit_and-pow_pred (suc k) = omega (
  arith,
  clear_even (2 ^ suc k) (pow_pos (suc k)) (omega (arith, pow-suc 2 k)),
  ap (λ m. bit_and m (m - 1)) (half_pow k),
  bit_and-pow_pred k,
)
