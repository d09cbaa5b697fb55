-- ===== src/Crypto/Padding/RoundTrip.antt =====
-- Lemmas on `padBlock` and `unpadBlock` of src/Crypto.cpp.
use barren_engine.Common.{
  ℕ, zero, suc, ap, ltb, ◌==◌, ◌||◌, if◌then◌else◌, ◌+◌, ◌-◌, ◌≤◌, ◌<◌, ◌≡◌, refl, ◌∙◌, [], ◌∷◌,
  ◌++◌, Bytes, length, take, replicate, arith, length-append, length-replicate, take-append, ok,
  throw, runtime_error, length_error,
}
use barren_engine.Crypto.Padding.{padding_size, pad_block, back, shrink, unpad_block}

back-append : (bs : Bytes) (c : ℕ) (cs : Bytes) → back (bs ++ c ∷ cs) ≡ back (c ∷ cs)
back-append [] c cs = refl
back-append (b ∷ []) c cs = refl
back-append (b ∷ b' ∷ bs) c cs = back-append (b' ∷ bs) c cs

back-replicate : (n p : ℕ) → back (replicate (suc n) p) ≡ p
back-replicate zero p = refl
back-replicate (suc n) p = back-replicate n p

-- `unpadBlock` of a vector with a last element: the test of that element, then `resize`.
unpad_block-append :
    (bs : Bytes) (c : ℕ) (cs : Bytes)
    → let p = back (c ∷ cs) in
      unpad_block (bs ++ c ∷ cs)
      ≡ (if ltb 16 p || p == 0 then throw runtime_error else shrink (bs ++ c ∷ cs) p)
unfolding unpad_block
unpad_block-append [] c cs = refl
unpad_block-append (b ∷ bs) c cs = rw (back-append (b ∷ bs) c cs)

pub padding_size_bounds : (bs : Bytes) → (0 < padding_size bs) × (padding_size bs ≤ 16)
unfolding padding_size
padding_size_bounds bs = omega arith

pub length-pad_block : (bs : Bytes) → length (pad_block bs) ≡ length bs + padding_size bs
unfolding pad_block
length-pad_block bs =
    length-append bs (replicate (padding_size bs) (padding_size bs))
    ∙ ap (◌+◌ (length bs)) (length-replicate (padding_size bs) (padding_size bs))

take_all : (n : ℕ) (xs ys : Bytes) → n ≤ length xs → take n (xs ++ ys) ≡ take n xs
take_all zero xs ys h = refl
take_all (suc n) [] ys h = absurd (omega arith)
take_all (suc n) (x ∷ xs) ys h = ap (◌∷◌ x) (take_all n xs ys (omega arith))

unpad_block-replicate :
    (bs : Bytes) (n : ℕ) → n < 16 → unpad_block (bs ++ replicate (suc n) (suc n)) ≡ ok bs
unfolding shrink
unpad_block-replicate bs n h = ground (
  arith,
  unpad_block-append bs (suc n) (replicate n (suc n)),
  back-replicate n (suc n),
  length-append bs (replicate (suc n) (suc n)),
  length-replicate n (suc n),
  take-append bs (replicate (suc n) (suc n)),
)

-- `unpadBlock` gives back the vector that `padBlock` was given.
pub unpad_block-pad_block : (bs : Bytes) → unpad_block (pad_block bs) ≡ ok bs
unfolding pad_block
unpad_block-pad_block bs = go (padding_size bs) refl
  where
    go : (n : ℕ) → padding_size bs ≡ n → unpad_block (bs ++ replicate n n) ≡ ok bs
    go zero e = absurd (omega (arith, padding_size_bounds bs))
    go (suc n) e = unpad_block-replicate bs n (omega (arith, padding_size_bounds bs))

-- `unpadBlock` of a vector that ends in the byte `p`: it throws `runtime_error` where `p` is 0 or
-- above 16, throws `length_error` where `p` exceeds the size, and otherwise drops the last `p`
-- bytes, whatever the bytes before the last one are.
pub unpad_block_cases :
    (bs : Bytes) (p : ℕ)
    → unpad_block (bs ++ p ∷ []) ≡ (
        if ltb 16 p || p == 0
        then throw runtime_error
        else if ltb (length bs + 1) p
        then throw length_error
        else ok (take (length bs + 1 - p) bs))
unfolding shrink
unpad_block_cases bs p = ground (
  arith,
  unpad_block-append bs p [],
  length-append bs (p ∷ []),
  take_all (length bs + 1 - p) bs (p ∷ []),
)
