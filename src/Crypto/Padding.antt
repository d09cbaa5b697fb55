-- ===== src/Crypto/Padding.antt =====
-- `padBlock` and `unpadBlock` of src/Crypto.cpp (PKCS#7 style).
pub mod RoundTrip
use barren_engine.Common.{
  ℕ, zero, suc, ◌+◌, ◌-◌, ◌*◌, ◌/◌, ◌%◌, ◌≤◌, ◌<◌, ◌≡◌, refl, sym, ap, ◌∙◌, List, [], ◌∷◌, ◌++◌,
  ◌||◌, Bytes, length, take, replicate, leb, ltb, ◌==◌, if◌then◌else◌, arith, length-append,
  length-replicate, take-append, append_assoc, Bool, true, false, append-nil, Result, ok, throw,
  invalid_argument, runtime_error, length_error,
}
use barren_engine.Crypto.Block.{block_size}

unfoldable pub padding_size : Bytes → ℕ
padding_size bytes = block_size - length bytes % block_size

unfoldable pub pad_block : Bytes → Bytes
unfolding padding_size
pad_block bytes = bytes ++ replicate (padding_size bytes) (padding_size bytes)

-- `data.back()`; the caller has checked that there is one.
abbrev pub back : Bytes → ℕ
back [] = 0
back (b ∷ []) = b
back (b ∷ c ∷ bs) = back (c ∷ bs)

-- `data.resize(data.size() - paddingSize)`: where the difference wraps round, the size asked for
-- is above `max_size()`.
unfoldable pub shrink : Bytes → ℕ → Result Bytes
shrink bytes n =
    if leb n (length bytes) then ok (take (length bytes - n) bytes) else throw length_error

unfoldable pub unpad_block : Bytes → Result Bytes
unfolding shrink
unpad_block [] = ok []
unpad_block (b ∷ bs) =
    let n = back (b ∷ bs) in
    if ltb block_size n || n == 0 then throw runtime_error else shrink (b ∷ bs) n
