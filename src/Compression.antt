-- ===== src/Compression.antt =====
-- The class `Compression`: Compression.hpp and src/Compression.cpp. LZ4, Zstandard and the comparison
-- of two `float`s are a record `Codecs`, a parameter of each function. `compress` and
-- `shouldCompress` call one another, so they take fuel, one unit for each call; `none` means that the
-- fuel ran out before the call returned.
pub mod Termination
use barren_engine.Common.{
  ℕ, zero, suc, ◌+◌, ◌-◌, ◌*◌, ◌^◌, Bool, true, false, not, Option, none, some, List, [], ◌∷◌, ◌++◌,
  Bytes, length, take, drop, replicate, get_or, is_empty, read_u32, ltb, if◌then◌else◌,
}

pub data Algorithm : Type 0 where
  plain lz4 zstd : Algorithm

-- `none` stands for an error code; a result of a decompressor is the prefix of the buffer that it
-- wrote.
pub record Codecs : Type 0 where
  pub lz4_compress : Bytes → Option Bytes
  pub lz4_decompress : Bytes → ℕ → Option Bytes
  pub zstd_compress : Bytes → Option Bytes
  pub zstd_content_size : Bytes → Option ℕ
  pub zstd_decompress : Bytes → ℕ → Option Bytes
  -- `static_cast<float>(a) / b < COMPRESSION_RATIO_THRESHOLD`
  pub worthwhile : ℕ → ℕ → Bool

-- `MIN_COMPRESSION_SIZE`.
abbrev pub min_compression_size : ℕ
min_compression_size = 64

abbrev pub bind {ℓ κ} : {A : Type ℓ} {B : Type κ} → Option A → (A → Option B) → Option B
bind none f = none
bind (some a) f = f a

abbrev pub or_else : Option Bytes → Bytes → Bytes
or_else none d = d
or_else (some a) d = a

-- The `switch` of `compress`.
unfoldable pub compress_with : Codecs → Bytes → Algorithm → Bytes
compress_with c bytes plain = bytes
compress_with c bytes lz4 = or_else (c.lz4_compress bytes) bytes
compress_with c bytes zstd = or_else (c.zstd_compress bytes) bytes

unfoldable mutual
  pub compress : Codecs → ℕ → Bytes → Algorithm → Option Bytes
  compress c zero bytes a = none
  compress c (suc fuel) bytes a =
      if is_empty bytes
      then some bytes
      else bind (should_compress c fuel bytes a)
          (λ chosen. some (if chosen then compress_with c bytes a else bytes))

  pub should_compress : Codecs → ℕ → Bytes → Algorithm → Option Bool
  should_compress c zero bytes a = none
  should_compress c (suc fuel) bytes a =
      if ltb (length bytes) min_compression_size
      then some false
      else bind (compress c fuel bytes a)
          (λ compressed. some (c.worthwhile (length compressed) (length bytes)))

-- The whole buffer of `size` zeros, after its beginning was written.
abbrev pub filled : Bytes → ℕ → Bytes
filled written size = written ++ replicate (size - length written) 0

-- `if (decompressedSize > 0) return decompressed;`, and otherwise the data as it came.
unfoldable pub decompress_lz4 : Option Bytes → ℕ → Bytes → Bytes
decompress_lz4 none size bytes = bytes
decompress_lz4 (some []) size bytes = bytes
decompress_lz4 (some (w ∷ written)) size bytes = filled (w ∷ written) size

unfoldable pub decompress_zstd : Codecs → Option ℕ → Bytes → Bytes
decompress_zstd c none bytes = bytes
decompress_zstd c (some size) bytes = elim (c.zstd_decompress bytes size) [
  | none ↦ bytes
  | some written ↦ filled written size
]

unfoldable pub decompress : Codecs → Bytes → Algorithm → Bytes
decompress c [] a = []
decompress c (b ∷ bytes) plain = b ∷ bytes
decompress c (b ∷ bytes) lz4 =
    if ltb (length (b ∷ bytes)) 4
    then b ∷ bytes
    else (let size = read_u32 (b ∷ bytes) in
        decompress_lz4 (c.lz4_decompress (drop 4 (b ∷ bytes)) size) size (b ∷ bytes))
decompress c (b ∷ bytes) zstd = decompress_zstd c (c.zstd_content_size (b ∷ bytes)) (b ∷ bytes)
