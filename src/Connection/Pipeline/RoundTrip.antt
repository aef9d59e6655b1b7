-- ===== src/Connection/Pipeline/RoundTrip.antt =====
-- crates/connection/src/pipeline.rs: what a pipeline sends, the same pipeline reads.
use riftnet_rust.Base.{ℕ, ◌≡◌, ◌↔◌, List, [], none, some, length, arith, inl, inr, Option-cases}
use riftnet_rust.Core.{ok}
use riftnet_rust.Compression.{Lz4, IsLz4, compress, decompress}
use riftnet_rust.Encryption.{Aead, IsAead, Cipher, encrypt, decrypt}
use riftnet_rust.Encryption
use riftnet_rust.Connection.Pipeline.{
  NetworkPipeline, nonce_bytes, secure_process, secure_inverse_process, secure_pipeline,
}

-- A payload that a pipeline has processed is what the inverse gives back under the same nonce.
abbrev pub RoundTrips : NetworkPipeline → Type 0
RoundTrips p =
    (bytes : List ℕ) (nonce : ℕ) (sent : List ℕ)
    → p.process bytes nonce ≡ ok sent
    → p.inverse_process sent nonce ≡ ok bytes

module _ ⦃lz4 : Lz4⦄ ⦃aead : Aead⦄ (lz4_laws : IsLz4 lz4) (aead_laws : IsAead aead) where
  -- Under the laws of LZ4 and of the cipher, what is compressed and encrypted under a key and a
  -- nonce is given back by the inverse with the same key and nonce.
  pub secure_inverse_process-secure_process :
      (cipher : Cipher) (bytes : List ℕ) (nonce : ℕ) (sent : List ℕ)
      → secure_process cipher bytes nonce ≡ ok sent
      → secure_inverse_process cipher sent nonce ≡ ok bytes
  unfolding secure_process secure_inverse_process encrypt decrypt compress decompress
  secure_inverse_process-secure_process cipher bytes nonce sent e = ground (
    arith,
    lz4_laws.decompress-compress bytes,
    aead_laws.open-seal cipher.key (nonce_bytes nonce) [] (lz4.compress_prepend_size bytes) sent,
  )

  -- A secure pipeline undoes what a secure pipeline of the same key has processed.
  pub secure_pipeline-RoundTrips :
      (key : List ℕ) (p : NetworkPipeline) → secure_pipeline key ≡ some p → RoundTrips p
  unfolding secure_pipeline Encryption.new
  secure_pipeline-RoundTrips key p e bytes nonce sent processed =
      elim (Option-cases (Encryption.new key)) [
        | inl d ↦ absurd (ground (arith, d))
        | inr (cipher, d) ↦
            ground (arith, d, secure_inverse_process-secure_process cipher bytes nonce sent)
      ]

-- A secure pipeline is made exactly from a key of 32 bytes.
pub secure_pipeline-none :
    ⦃lz4 : Lz4⦄ ⦃aead : Aead⦄ (key : List ℕ) → (secure_pipeline key ≡ none) ↔ ¬ (length key ≡ 32)
unfolding secure_pipeline Encryption.new
secure_pipeline-none key = ground arith
