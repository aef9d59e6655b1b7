-- ===== src/Encryption.antt =====
-- crates/encryption/src/encryptor.rs. The ChaCha20-Poly1305 cipher of the library is a parameter.
use riftnet_rust.Base.{
  ℕ, ◌+◌, ◌<◌, ◌≡◌, ◌++◌, List, Option, none, some, length, ◌==◌, if◌then◌else◌,
}
use riftnet_rust.Base.Bytes.{to_le_bytes}
use riftnet_rust.Core.{encryption_error, Result, ok, err}

-- `seal_in_place_append_tag` and `open_in_place` of the crate `ring`, on a key, a nonce, the
-- associated data and a buffer; `none` is its error.
pub record Aead : Type 0 where
  pub seal : List ℕ → List ℕ → List ℕ → List ℕ → Option (List ℕ)
  pub open_sealed : List ℕ → List ℕ → List ℕ → List ℕ → Option (List ℕ)

-- What the program relies on: what was sealed is opened by the same key, nonce and data, and is
-- longer by the tag of 16 bytes.
pub record IsAead (aead : Aead) : Type 0 where
  pub open-seal :
      (key nonce aad text sealed : List ℕ)
      → aead.seal key nonce aad text ≡ some sealed
      → aead.open_sealed key nonce aad sealed ≡ some text
  pub length-seal :
      (key nonce aad text sealed : List ℕ)
      → aead.seal key nonce aad text ≡ some sealed
      → length sealed ≡ length text + 16

-- What is shorter than the tag is refused.
pub record RefusesShort (aead : Aead) : Type 0 where
  pub open_short :
      (key nonce aad sealed : List ℕ)
      → length sealed < 16
      → aead.open_sealed key nonce aad sealed ≡ none

pub record Cipher : Type 0 where
  pub key : List ℕ

-- A key that is not 32 bytes long panics: `none`.
unfoldable pub new : List ℕ → Option Cipher
new key_bytes = if length key_bytes == 32 then some (record { key = key_bytes }) else none

-- A unique nonce of 12 bytes from a tick and a session.
unfoldable pub derive_nonce : ℕ → ℕ → List ℕ
derive_nonce tick session_id = to_le_bytes 8 tick ++ to_le_bytes 4 session_id

module _ ⦃aead : Aead⦄ where
  -- The result is the buffer afterwards.
  unfoldable pub encrypt : Cipher → List ℕ → List ℕ → List ℕ → Result (List ℕ)
  encrypt c nonce aad buffer = elim (aead.seal c.key nonce aad buffer) [
    | none ↦ err encryption_error
    | some out ↦ ok out
  ]

  unfoldable pub decrypt : Cipher → List ℕ → List ℕ → List ℕ → Result (List ℕ)
  decrypt c nonce aad buffer = elim (aead.open_sealed c.key nonce aad buffer) [
    | none ↦ err encryption_error
    | some out ↦ ok out
  ]
