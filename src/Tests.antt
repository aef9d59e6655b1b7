-- ===== src/Tests.antt =====
-- Concrete instances and values, on which the theorems about the code are applied in the children.
pub mod Sequences
pub mod Reliability
pub mod Conns
pub mod Managers
pub mod Handshakes
pub mod Transports
pub mod Games
pub mod Servers
pub mod Players
pub mod Swarms
pub mod Runs
use riftnet_rust.Base.{
  ℕ, ◌+◌, ◌-◌, ◌*◌, ◌/◌, ◌%◌, ◌^◌, ◌<◌, ◌≡◌, refl, ap, ◌∙◌, min, inl, inr, Bool, true, false,
  Option, none, some, List, [], ◌∷◌, ◌++◌, length, take, ◌↔◌, replicate, drop, ◌&&◌, arith, ltb,
  leb, ◌==◌, if◌then◌else◌, ==→eq, length-append, length-replicate,
}
use riftnet_rust.Float.{F32, IsF32, F32Cast, IsF32Cast}
use riftnet_rust.Compression.{Lz4, IsLz4}
use riftnet_rust.Encryption.{Aead, IsAead, RefusesShort}
use riftnet_rust.Connection.Table.{SocketAddr}

-- Numbers with three decimal places, negative ones cut off at zero.
instance abbrev pub thousandths : F32 ℕ
thousandths = record {
  lit = λ n d. n * 1000 / d;
  add = λ a b. a + b;
  sub = λ a b. a - b;
  mul = λ a b. a * b / 1000;
  abs = λ a. a;
  lt = λ a b. ltb a b;
  le = λ a b. leb a b;
  minimum = λ a b. min a b;
  as_secs_f32 = λ nanos. nanos / 1000000;
}

pub thousandths-IsF32 : IsF32 thousandths
thousandths-IsF32 = record {
  lt_irrefl = λ a. ground arith;
  lit_order = refl;
  lit_start = refl;
  lt_2000 = λ a below. ground arith;
  minimum-le = λ a b. ground arith;
}

-- A block that is stored as it is, behind one byte.
abbrev unstore : List ℕ → Option (List ℕ)
unstore [] = none
unstore (b ∷ bytes) = some bytes

instance abbrev pub stored : Lz4
stored = record { compress_prepend_size = λ bytes. 0 ∷ bytes; decompress_size_prepended = unstore }

pub stored-IsLz4 : IsLz4 stored
stored-IsLz4 = record { decompress-compress = λ bytes. refl }

-- A text behind a tag of 16 bytes, which tells the sums of the key and of the nonce.
abbrev total : List ℕ → ℕ
total [] = 0
total (b ∷ bytes) = b + total bytes

abbrev open_tagged : ℕ → ℕ → List ℕ → Option (List ℕ)
open_tagged k n (k' ∷ n' ∷ rest) =
    if (k == k' && n == n') && leb 14 (length rest) then some (drop 14 rest) else none
open_tagged k n _ = none

instance abbrev pub tagged : Aead
tagged = record {
  seal = λ key nonce aad text. some (total key ∷ total nonce ∷ (replicate 14 0 ++ text));
  open_sealed = λ key nonce aad sealed. open_tagged (total key) (total nonce) sealed;
}

pub tagged-IsAead : IsAead tagged
tagged-IsAead = record {
  open-seal = λ key nonce aad text sealed e. ground arith;
  length-seal = λ key nonce aad text sealed e. ground arith;
}

-- The conversions for numbers with three decimal places.
instance abbrev pub whole : F32Cast ℕ
whole = record {
  of_i32 = λ d. d * 1000;
  of_i64 = λ d. d * 1000;
  of_u128 = λ d. d * 1000;
  as_i32 = λ x. x / 1000;
  as_u64 = λ x. x / 1000;
  as_u128 = λ x. x / 1000;
  round = λ x. (x + 500) / 1000 * 1000;
  div = λ a b. a * 1000 / b;
  to_bits = λ x. x;
}

whole-IsF32Cast : IsF32Cast thousandths whole
whole-IsF32Cast = record {
  times_one = λ d. omega arith;
  times_zero = λ d. omega arith;
  small_exact = λ d small. omega arith;
  negative_exact = λ d above below. omega arith;
}

pub same_number : (a b : ℕ) → ((a == b) ≡ true) ↔ (a ≡ b)
same_number a b = ground arith

-- An address is a number, and its text one byte.
instance abbrev pub numbered : SocketAddr ℕ
numbered = record {
  same_addr = λ a b. a == b;
  same_addr_iff = same_number;
  ip_string = λ a. a ∷ [];
}

-- What an operation gave, where it is known to give something.
abbrev pub or_else : {A : Type 0} → Option A → A → A
or_else none a = a
or_else (some b) a = b

pub made : {A : Type 0} (o : Option A) (a : A) → (b : A) × (o ≡ some b) → o ≡ some (or_else o a)
made o a (b, e) = ground (arith, e)
