-- ===== src/Base/Bits.antt =====
-- Words and their bits: shifts and casts as the source writes them, and the laws of single bits.
use Prim.Native.Nat.{
  ℕ, zero, suc, ◌+◌, ◌-◌, ◌*◌, ◌/◌, ◌%◌, ◌^◌, ◌≤◌, ◌<◌, min, max, bit_and, bit_or, digits,
  bit_and-bitwise, bit_or-bitwise,
}
use mathlib.Core.Path.{◌≡◌, refl, ap, ap₂, sym, ◌∙◌}
use mathlib.Core.Logic.{◌≢◌}
use native.Mathlib.Nat.{
  le_refl, pow-suc, one-le-pow, div-div-eq-div-mul, mod-lt, div-add-mod, mod-eq_of_lt,
  add-mul-mod_self_right,
}
use native.Mathlib.Omega.{arith}
use native.Mathlib.Decide.{ℕ_discrete}

abbrev pub u16 : ℕ → ℕ
u16 n = n % 2 ^ 16

abbrev pub u32 : ℕ → ℕ
u32 n = n % 2 ^ 32

abbrev pub u64 : ℕ → ℕ
u64 n = n % 2 ^ 64

-- `x << k` before the cast to the width, and `x >> k`.
infixl 75 ◌<<<◌ ◌>>>◌
abbrev pub ◌<<<◌ : ℕ → ℕ → ℕ
x <<< k = x * 2 ^ k

abbrev pub ◌>>>◌ : ℕ → ℕ → ℕ
x >>> k = x / 2 ^ k

-- The bit with number `i`.
abbrev pub bit : ℕ → ℕ → ℕ
bit x zero = x % 2
bit x (suc i) = bit (x / 2) i

-- The native operations run over binary digits on fuel, which more fuel does not change once it
-- covers the number.
module _ (rest : ℕ → ℕ) (digit : ℕ → ℕ → ℕ) where
  one_more :
      (fuel x y : ℕ) → x ≤ fuel → digits rest digit (suc fuel) x y ≡ digits rest digit fuel x y
  one_more zero zero y covered = refl
  one_more (suc fuel) zero y covered = refl
  one_more zero (suc x) y covered = absurd (omega arith)
  one_more (suc fuel) (suc x) y covered = rw (one_more fuel (suc x / 2) (y / 2) (omega arith)) refl

  surplus :
      (extra fuel x y : ℕ)
      → x ≤ fuel
      → digits rest digit (fuel + extra) x y ≡ digits rest digit fuel x y
  surplus zero fuel x y covered = ap (λ n. digits rest digit n x y) (omega arith)
  surplus (suc extra) fuel x y covered =
      ap (λ n. digits rest digit n x y) {x = fuel + suc extra} {y = suc (fuel + extra)}
        (omega arith)
      ∙ one_more (fuel + extra) x y (omega arith)
      ∙ surplus extra fuel x y covered

  halved :
      (x y : ℕ)
      → digits rest digit x (suc x / 2) (y / 2) ≡ digits rest digit (suc x / 2) (suc x / 2) (y / 2)
  halved x y =
      ap (λ n. digits rest digit n (suc x / 2) (y / 2)) {x = x} {y = suc x / 2 + (x - suc x / 2)}
        (omega arith)
      ∙ surplus (x - suc x / 2) (suc x / 2) (suc x / 2) (y / 2) (le_refl _)

-- The lowest digit of a result, and its half.
pub bit_or_digit : (x y : ℕ) → bit_or x y ≡ max (x % 2) (y % 2) + 2 * bit_or (x / 2) (y / 2)
bit_or_digit zero y = omega (arith, bit_or-bitwise 0 y, bit_or-bitwise 0 (y / 2))
bit_or_digit (suc x) y =
    omega
      (arith, bit_or-bitwise (suc x) y, bit_or-bitwise (suc x / 2) (y / 2), halved (λ d. d) max x y)

pub bit_and_digit : (x y : ℕ) → bit_and x y ≡ min (x % 2) (y % 2) + 2 * bit_and (x / 2) (y / 2)
bit_and_digit zero y = omega (arith, bit_and-bitwise 0 y, bit_and-bitwise 0 (y / 2))
bit_and_digit (suc x) y =
    omega (
      arith,
      bit_and-bitwise (suc x) y,
      bit_and-bitwise (suc x / 2) (y / 2),
      halved (λ d. 0) min x y,
    )

and_zero_below : (bound x : ℕ) → x < bound → bit_and x 0 ≡ 0
and_zero_below zero x h = elim h [ ]
and_zero_below (suc bound) x h = elim (ℕ_discrete x 0) [
  | yes e ↦ rw e refl
  | no positive ↦ omega (arith, bit_and_digit x 0, and_zero_below bound (x / 2) (omega arith))
]

pub bit_and-zero : (x : ℕ) → bit_and x 0 ≡ 0
bit_and-zero x = and_zero_below (suc x) x (omega arith)

pub bit_and-one : (x : ℕ) → bit_and x 1 ≡ x % 2
bit_and-one x = omega (arith, bit_and-zero (x / 2), bit_and_digit x 1)

pub bit-le_one : (x i : ℕ) → bit x i ≤ 1
bit-le_one x zero = omega arith
bit-le_one x (suc i) = bit-le_one (x / 2) i

pub bit-zero : (i : ℕ) → bit 0 i ≡ 0
bit-zero zero = refl
bit-zero (suc i) = bit-zero i

pub bit-bit_or : (a b i : ℕ) → bit (bit_or a b) i ≡ max (bit a i) (bit b i)
bit-bit_or a b zero = omega (arith, bit_or_digit a b)
bit-bit_or a b (suc i) = rw halves (bit-bit_or (a / 2) (b / 2) i)
  where
    halves : bit_or a b / 2 ≡ bit_or (a / 2) (b / 2)
    halves = omega (arith, bit_or_digit a b)

pub pow_pos : (k : ℕ) → 1 ≤ 2 ^ k
pow_pos k = one-le-pow k 2 (omega arith)

pub half_pow : (d : ℕ) → 2 ^ suc d / 2 ≡ 2 ^ d
half_pow d = omega (arith, pow-suc 2 d)

double_pow : (x d : ℕ) → x * 2 ^ suc d ≡ 2 * (x * 2 ^ d)
double_pow x d = omega (arith, ap (λ (t : ℕ). x * t) (pow-suc 2 d))

half_shl : (x d : ℕ) → (x * 2 ^ suc d) / 2 ≡ x * 2 ^ d
half_shl x d = omega (arith, double_pow x d)

pub bit-shl_lt : (x d i : ℕ) → i < d → bit (x * 2 ^ d) i ≡ 0
bit-shl_lt x zero i h = elim h [ ]
bit-shl_lt x (suc d) zero h = omega (arith, double_pow x d)
bit-shl_lt x (suc d) (suc i) h = rw half_shl (bit-shl_lt x d i (omega arith))

pub bit-shl_ge : (x d i j : ℕ) → i ≡ d + j → bit (x * 2 ^ d) i ≡ bit x j
bit-shl_ge x zero i j e =
    ap₂ bit {x = x * 2 ^ 0} {y = x} {u = i} {v = j} (omega arith) (omega arith)
bit-shl_ge x (suc d) zero j e = absurd (omega arith)
bit-shl_ge x (suc d) (suc i) j e = rw half_shl (bit-shl_ge x d i j (omega arith))

-- A shift right, and the test of the lowest bit.
pub bit-shr : (x i : ℕ) → (x >>> i) % 2 ≡ bit x i
bit-shr x zero = omega arith
bit-shr x (suc i) = rw steps (bit-shr (x / 2) i)
  where
    steps : x / 2 ^ suc i ≡ x / 2 / 2 ^ i
    steps = ap (λ k. x / k) (omega (arith, pow-suc 2 i)) ∙ sym (div-div-eq-div-mul x 2 (2 ^ i))

half_mod : (x w : ℕ) → (x % 2 ^ suc w) / 2 ≡ (x / 2) % 2 ^ w
half_mod x w =
    let q = x / 2 ^ suc w in
    let r = x % 2 ^ suc w in
    let small : r < 2 ^ suc w = mod-lt _ (pow_pos (suc w)) in
    let split : x / 2 ≡ r / 2 + q * 2 ^ w =
      omega (arith, div-add-mod x (2 ^ suc w), double_pow q w) in
    rw (split, add-mul-mod_self_right (r / 2) q (2 ^ w))
      (sym (mod-eq_of_lt (omega (arith, small, pow-suc 2 w))))

pub bit-mod : (x w i : ℕ) → i < w → bit (x % 2 ^ w) i ≡ bit x i
bit-mod x zero i h = elim h [ ]
bit-mod x (suc w) zero h = omega (arith, div-add-mod x (2 ^ suc w), double_pow (x / 2 ^ suc w) w)
bit-mod x (suc w) (suc i) h = rw half_mod (bit-mod (x / 2) w i (omega arith))

pub bit-pow_self : (d : ℕ) → bit (2 ^ d) d ≡ 1
bit-pow_self zero = refl
bit-pow_self (suc d) = rw half_pow (bit-pow_self d)

pub bit-pow_ne : (d i : ℕ) → i ≢ d → bit (2 ^ d) i ≡ 0
bit-pow_ne zero zero h = absurd (h refl)
bit-pow_ne zero (suc i) h = bit-zero i
bit-pow_ne (suc d) zero h = omega (arith, pow-suc 2 d)
bit-pow_ne (suc d) (suc i) h = rw half_pow (bit-pow_ne d i (λ e. h (ap suc e)))

-- The test `x & (1 << d)`.
pub bit_and-pow : (x d : ℕ) → bit_and x (2 ^ d) ≡ bit x d * 2 ^ d
bit_and-pow x zero = omega (arith, bit_and-one x)
bit_and-pow x (suc d) = omega (
  arith,
  bit_and_digit x (2 ^ suc d)
      ∙ ap (λ k. min (x % 2) (2 ^ suc d % 2) + 2 * bit_and (x / 2) k) (half_pow d),
  pow-suc 2 d,
  bit_and-pow (x / 2) d,
  double_pow (bit (x / 2) d) d,
)

-- A mask of `k` low bits is the remainder by `2 ^ k`.
pub bit_and-mask : (k a : ℕ) → bit_and a (2 ^ k - 1) ≡ a % 2 ^ k
bit_and-mask zero a = omega (arith, bit_and-zero a)
bit_and-mask (suc k) a = omega (
  arith,
  bit_and_digit a (2 ^ suc k - 1),
  ap (bit_and (a / 2)) halves,
  bit_and-mask k (a / 2),
  half_mod a k,
  pow-suc 2 k,
  pow_pos k,
  lowest,
)
  where
    halves : (2 ^ suc k - 1) / 2 ≡ 2 ^ k - 1
    halves = omega (arith, pow-suc 2 k, pow_pos k)

    lowest : (a % 2 ^ suc k) % 2 ≡ a % 2
    lowest = omega (arith, div-add-mod a (2 ^ suc k), double_pow (a / 2 ^ suc k) k)
