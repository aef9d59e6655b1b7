-- ===== src/Connection/Pipeline.antt =====
-- crates/connection/src/connection.rs (`NetworkPipeline`, `NullPipeline`) and
-- crates/connection/src/pipeline.rs.
pub mod RoundTrip
use riftnet_rust.Base.{ℕ, ◌++◌, List, [], Option, none, some, replicate}
use riftnet_rust.Base.Bytes.{to_le_bytes}
use riftnet_rust.Core.{
  RiftError, compression_error, encryption_error, Result, ok, err, ◌>>=◌, or_error,
}
use riftnet_rust.Compression.{Lz4, compress, decompress}
use riftnet_rust.Encryption.{Aead, Cipher, encrypt, decrypt}
use riftnet_rust.Encryption

-- The trait: what is sent for a payload under a nonce, and back.
pub record NetworkPipeline : Type 0 where
  pub process : List ℕ → ℕ → Result (List ℕ)
  pub inverse_process : List ℕ → ℕ → Result (List ℕ)

abbrev pub null_pipeline : NetworkPipeline
null_pipeline = record {
  process = λ bytes nonce. ok bytes;
  inverse_process = λ bytes nonce. ok bytes;
}

-- The 64-bit nonce in the first 8 of 12 bytes.
unfoldable pub nonce_bytes : ℕ → List ℕ
nonce_bytes nonce = to_le_bytes 8 nonce ++ replicate 4 0

module _ ⦃lz4 : Lz4⦄ ⦃aead : Aead⦄ where
  -- Compress, then encrypt with no associated data.
  unfoldable pub secure_process : Cipher → List ℕ → ℕ → Result (List ℕ)
  secure_process cipher plaintext nonce = do
    payload ← or_error (compress plaintext) compression_error
    or_error (encrypt cipher (nonce_bytes nonce) [] payload) encryption_error

  unfoldable pub secure_inverse_process : Cipher → List ℕ → ℕ → Result (List ℕ)
  secure_inverse_process cipher ciphertext nonce = do
    decrypted ← or_error (decrypt cipher (nonce_bytes nonce) [] ciphertext) encryption_error
    or_error (decompress decrypted) compression_error

  -- `SecurePipeline::new` as the trait's object; `none` where the cipher panics on its key.
  unfoldable pub secure_pipeline : List ℕ → Option NetworkPipeline
  secure_pipeline key = elim (Encryption.new key) [
    | none ↦ none
    | some cipher ↦ some (record {
      process = secure_process cipher;
      inverse_process = secure_inverse_process cipher;
    })
  ]
