-- ===== src/Base/Bytes.antt =====
-- Little-endian words as lists of bytes, and cutting a prefix off a list of bytes.
use Prim.Native.Nat.{ℕ, zero, suc, ◌+◌, ◌*◌, ◌/◌, ◌%◌, ◌^◌, ◌<◌}
use mathlib.Core.Path.{◌≡◌, refl, ap, ap₂, ◌∙◌}
use mathlib.Core.List.{List, [], ◌∷◌, ◌++◌}
use mathlib.Core.Option.{Option, none, some}
use native.Mathlib.Nat.{pow-suc}
use native.Mathlib.Omega.{arith}
use mathlib.Core.Logic.{◌⊎◌, inl, inr}
use riftnet_rust.Base.Lists.{length}

infixl 5 ◌>>=◌
abbrev pub ◌>>=◌ {ℓ κ} : {A : Type ℓ} {B : Type κ} → Option A → (A → Option B) → Option B
none >>= f = none
some a >>= f = f a

abbrev pub IsBytes : List ℕ → Type 0
IsBytes [] = Unit
IsBytes (b ∷ bs) = (b < 256) × IsBytes bs

-- `to_le_bytes` of a word of `n` bytes, and `from_le_bytes`.
unfoldable pub to_le_bytes : ℕ → ℕ → List ℕ
to_le_bytes zero x = []
to_le_bytes (suc n) x = (x % 256) ∷ to_le_bytes n (x / 256)

unfoldable pub from_le_bytes : List ℕ → ℕ
from_le_bytes [] = 0
from_le_bytes (b ∷ bs) = b + 256 * from_le_bytes bs

cons_prefix {ℓ} : {A : Type ℓ} → A → Option (List A × List A) → Option (List A × List A)
cons_prefix x none = none
cons_prefix x (some (front, rest)) = some (x ∷ front, rest)

-- The first `n` bytes and the rest; none if there are fewer.
unfoldable pub take_bytes : ℕ → List ℕ → Option (List ℕ × List ℕ)
unfolding cons_prefix
take_bytes zero bs = some ([], bs)
take_bytes (suc n) [] = none
take_bytes (suc n) (b ∷ bs) = cons_prefix b (take_bytes n bs)

unfoldable pub read_le : ℕ → List ℕ → Option (ℕ × List ℕ)
unfolding take_bytes from_le_bytes
read_le n bs = do (front, rest) ← take_bytes n bs; some (from_le_bytes front, rest)

pub length-to_le_bytes : (n x : ℕ) → length (to_le_bytes n x) ≡ n
unfolding to_le_bytes from_le_bytes
length-to_le_bytes zero x = refl
length-to_le_bytes (suc n) x = ap suc (length-to_le_bytes n (x / 256))

pub from_le_bytes-to_le_bytes : (n x : ℕ) → x < 256 ^ n → from_le_bytes (to_le_bytes n x) ≡ x
unfolding to_le_bytes from_le_bytes
from_le_bytes-to_le_bytes zero x h = omega arith
from_le_bytes-to_le_bytes (suc n) x h =
    omega (arith, from_le_bytes-to_le_bytes n (x / 256) (omega (arith, h, pow-suc 256 n)))

pub to_le_bytes-from_le_bytes :
    (bs : List ℕ) → IsBytes bs → to_le_bytes (length bs) (from_le_bytes bs) ≡ bs
unfolding to_le_bytes from_le_bytes
to_le_bytes-from_le_bytes [] h = refl
to_le_bytes-from_le_bytes (b ∷ bs) h =
    ap₂ ◌∷◌ {x = (b + 256 * from_le_bytes bs) % 256} {y = b} (omega (arith, h.0)) (
      ap (to_le_bytes (length bs)) {x = (b + 256 * from_le_bytes bs) / 256} (omega (arith, h.0))
      ∙ to_le_bytes-from_le_bytes bs h.1)

pub take_bytes-append :
    (n : ℕ) (front rest : List ℕ)
    → length front ≡ n
    → take_bytes n (front ++ rest) ≡ some (front, rest)
unfolding take_bytes
take_bytes-append zero [] rest e = refl
take_bytes-append zero (b ∷ front) rest e = absurd (omega arith)
take_bytes-append (suc n) [] rest e = absurd (omega arith)
take_bytes-append (suc n) (b ∷ front) rest e = rw (take_bytes-append n front rest (omega arith))

pub take_bytes_short : (n : ℕ) (bs : List ℕ) → length bs < n → take_bytes n bs ≡ none
unfolding take_bytes
take_bytes_short zero bs h = elim h [ ]
take_bytes_short (suc n) [] h = refl
take_bytes_short (suc n) (b ∷ bs) h = rw (take_bytes_short n bs (omega arith))

pub read_le-append :
    (n x : ℕ) (rest : List ℕ) → x < 256 ^ n → read_le n (to_le_bytes n x ++ rest) ≡ some (x, rest)
unfolding read_le
read_le-append n x rest h = rw (
  take_bytes-append n (to_le_bytes n x) rest (length-to_le_bytes n x),
  from_le_bytes-to_le_bytes n x h,
)

pub read_le_short : (n : ℕ) (bs : List ℕ) → length bs < n → read_le n bs ≡ none
unfolding read_le
read_le_short n bs h = rw (take_bytes_short n bs h)

pub take_bytes_cases :
    (n : ℕ) (bs : List ℕ)
    → ((length bs < n) × (take_bytes n bs ≡ none))
      ⊎ ((front : List ℕ) × (rest : List ℕ) × (take_bytes n bs ≡ some (front, rest))
          × (length bs ≡ n + length rest))
unfolding take_bytes
take_bytes_cases zero bs = inr ([], bs, refl, omega arith)
take_bytes_cases (suc n) [] = inl (omega arith, refl)
take_bytes_cases (suc n) (b ∷ bs) = elim (take_bytes_cases n bs) [
  | inl (short, e) ↦ inl (omega arith, rw e)
  | inr (front, rest, e, len) ↦ inr (b ∷ front, rest, rw e, omega arith)
]

-- A word is read exactly when there are enough bytes, and what follows it is left.
pub read_le_cases :
    (n : ℕ) (bs : List ℕ)
    → ((length bs < n) × (read_le n bs ≡ none))
      ⊎ ((v : ℕ) × (rest : List ℕ) × (read_le n bs ≡ some (v, rest))
          × (length bs ≡ n + length rest))
unfolding read_le
read_le_cases n bs = elim (take_bytes_cases n bs) [
  | inl (short, e) ↦ inl (short, rw e)
  | inr (front, rest, e, len) ↦ inr (from_le_bytes front, rest, rw e, len)
]

pub length_taken :
    (n : ℕ) (bs front rest : List ℕ) → take_bytes n bs ≡ some (front, rest) → length front ≡ n
unfolding take_bytes
length_taken zero bs front rest e = ground arith
length_taken (suc n) [] front rest e = cc
length_taken (suc n) (b ∷ bs) front rest e = elim (take_bytes_cases n bs) [
  | inl (short, d) ↦ ground arith
  | inr (front', rest', d, len) ↦ ground (arith, length_taken n bs front' rest' d)
]
