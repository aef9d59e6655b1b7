-- ===== src/Compression.antt =====
-- crates/compression/src/compressor.rs. The LZ4 library is a parameter.
use riftnet_rust.Base.{ℕ, ◌≡◌, List, Option, none, some}
use riftnet_rust.Core.{compression_error, Result, ok, err}

-- The two functions of the crate `lz4_flex` that the program calls.
pub record Lz4 : Type 0 where
  pub compress_prepend_size : List ℕ → List ℕ
  pub decompress_size_prepended : List ℕ → Option (List ℕ)

-- What the program relies on: a block is decompressed to what was compressed.
pub record IsLz4 (lz4 : Lz4) : Type 0 where
  pub decompress-compress :
      (bytes : List ℕ)
      → lz4.decompress_size_prepended (lz4.compress_prepend_size bytes) ≡ some bytes

module _ ⦃lz4 : Lz4⦄ where
  unfoldable pub compress : List ℕ → Result (List ℕ)
  compress bytes = ok (lz4.compress_prepend_size bytes)

  unfoldable pub decompress : List ℕ → Result (List ℕ)
  decompress bytes = elim (lz4.decompress_size_prepended bytes) [
    | none ↦ err compression_error
    | some out ↦ ok out
  ]
