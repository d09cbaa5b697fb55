-- ===== src/Tests/CompressionRuns.antt =====
-- Runs of the operations of src/Compression.cpp, with codecs that give up.
use barren_engine.Common.{◌≡◌, refl, none, some, [], ◌∷◌, replicate, arith, ltb}
use barren_engine.Compression.{Codecs, lz4, zstd, compress}
use barren_engine.Compression.Termination.{compress_never_returns}

-- Both compressors prefix the data by a byte, and both decompressors drop one.
abbrev codecs : Codecs
codecs = record {
  lz4_compress = λ bytes. some (4 ∷ bytes);
  lz4_decompress = λ bytes size. elim bytes [ [] ↦ none | b ∷ bs ↦ some bs ];
  zstd_compress = λ bytes. some (40 ∷ bytes);
  zstd_content_size = λ bytes. none;
  zstd_decompress = λ bytes size. elim bytes [ [] ↦ none | b ∷ bs ↦ some bs ];
  worthwhile = λ a b. ltb a b;
}

compress_run : compress codecs 9 (5 ∷ 6 ∷ []) zstd ≡ some (5 ∷ 6 ∷ [])
unfolding compress
compress_run = refl

compress_never_returns_example : compress codecs 1000 (replicate 64 1) lz4 ≡ none
compress_never_returns_example =
    compress_never_returns codecs 1000 (replicate 64 1) lz4 (omega arith)
