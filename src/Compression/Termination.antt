-- ===== src/Compression/Termination.antt =====
-- Lemmas on the results of `compress` of src/Compression.cpp.
use barren_engine.Common.{
  ℕ, zero, suc, ◌≤◌, ◌<◌, ◌≡◌, refl, ap, ◌∙◌, none, some, [], ◌∷◌, Bytes, length, arith,
}
use barren_engine.Compression.{
  Codecs, Algorithm, zstd, compress, should_compress, decompress, decompress_zstd,
}

mutual
  unfolding compress should_compress

  compress_diverges :
      (c : Codecs) (fuel : ℕ) (bytes : Bytes) (a : Algorithm)
      → 64 ≤ length bytes
      → compress c fuel bytes a ≡ none
  compress_diverges c zero bytes a h = refl
  compress_diverges c (suc fuel) bytes a h =
      ground (arith, should_compress_diverges c fuel bytes a h)

  should_compress_diverges :
      (c : Codecs) (fuel : ℕ) (bytes : Bytes) (a : Algorithm)
      → 64 ≤ length bytes
      → should_compress c fuel bytes a ≡ none
  should_compress_diverges c zero bytes a h = refl
  should_compress_diverges c (suc fuel) bytes a h =
      ground (arith, compress_diverges c fuel bytes a h)

-- `compress` never returns on 64 bytes or more, whatever the algorithm and the libraries do: no
-- number of calls, however large, is enough.
pub compress_never_returns :
    (c : Codecs) (fuel : ℕ) (bytes : Bytes) (a : Algorithm)
    → 64 ≤ length bytes
    → compress c fuel bytes a ≡ none
compress_never_returns c fuel bytes a h = compress_diverges c fuel bytes a h

-- On fewer than 64 bytes two calls are enough, and the data comes back as it is.
pub compress_small :
    (c : Codecs) (fuel : ℕ) (bytes : Bytes) (a : Algorithm)
    → length bytes < 64
    → compress c (suc (suc fuel)) bytes a ≡ some bytes
unfolding compress should_compress
compress_small c fuel [] a h = refl
compress_small c fuel bytes a h = ground arith

compress_result :
    (c : Codecs) (fuel : ℕ) (bytes : Bytes) (a : Algorithm) {sent : Bytes}
    → compress c fuel bytes a ≡ some sent
    → sent ≡ bytes
unfolding compress should_compress
compress_result c zero bytes a e = cc
compress_result c (suc fuel) [] a e = ground arith
compress_result c (suc zero) (b ∷ bytes) a e = cc
compress_result c (suc (suc fuel)) (b ∷ bytes) a e =
    ground (arith, compress_never_returns c fuel (b ∷ bytes) a)

decompress_raw :
    (c : Codecs) (bytes : Bytes)
    → c.zstd_content_size bytes ≡ none
    → decompress c bytes zstd ≡ bytes
unfolding decompress
decompress_raw c [] h = refl
decompress_raw c (b ∷ bytes) h = rw h (unfold decompress_zstd in refl)

-- If `compress` for Zstandard returns at all, and its data is not a Zstandard frame itself, then
-- `decompress` gives back the data that `compress` was given.
pub decompress-compress :
    (c : Codecs) (fuel : ℕ) (bytes : Bytes) {sent : Bytes}
    → c.zstd_content_size bytes ≡ none
    → compress c fuel bytes zstd ≡ some sent
    → decompress c sent zstd ≡ bytes
decompress-compress c fuel bytes h e =
    ap (λ s. decompress c s zstd) (compress_result c fuel bytes zstd e) ∙ decompress_raw c bytes h
