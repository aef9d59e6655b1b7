-- ===== src/Core.antt =====
-- crates/core/src/core.rs: the errors, and the standard library's `Result` with them.
pub mod ThreadPool
use Prim.Native.String.{String}
use riftnet_rust.Base.{◌≡◌, ◌⊎◌, inl, inr, refl}

pub data RiftError : Type 0 where
  network_error : String → RiftError
  compression_error compression_failed decompression_error decompression_failed : RiftError
  encryption_error encryption_failed decryption_error decryption_failed : RiftError
  capacity_exceeded thread_panic : RiftError

pub data Result {ℓ} (A : Type ℓ) : Type ℓ where
  ok : A → Result A
  err : RiftError → Result A

infixl 5 ◌>>=◌
abbrev pub ◌>>=◌ {ℓ κ} : {A : Type ℓ} {B : Type κ} → Result A → (A → Result B) → Result B
ok a >>= f = f a
err e >>= f = err e

-- `map_err` with a constant function.
abbrev pub or_error {ℓ} : {A : Type ℓ} → Result A → RiftError → Result A
or_error (ok a) e = ok a
or_error (err _) e = err e

pub Result-cases {ℓ} :
    {A : Type ℓ} (m : Result A) → ((a : A) × (m ≡ ok a)) ⊎ ((e : RiftError) × (m ≡ err e))
Result-cases (ok a) = inl (a, refl)
Result-cases (err e) = inr (e, refl)
