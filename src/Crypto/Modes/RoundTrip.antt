-- ===== src/Crypto/Modes/RoundTrip.antt =====
-- The loops of the modes of src/Crypto.cpp, over any block functions.
use barren_engine.Common.{
  ℕ, zero, suc, ◌*◌, ◌≡◌, refl, subst, ap₂, ◌↔◌, append-nil, sym, ap, ◌∙◌, [], ◌∷◌, ◌++◌, Bytes,
  length, take, drop, arith, take-append, drop-append, take-append-drop, length-take, length-drop,
  bit_xor_cancel, bit_xor_cancel_left, bit_xor, get_or,
}
use barren_engine.Crypto.Block.{Block, xor_blocks}
use barren_engine.Crypto.Modes.{cbc_encrypt_loop, cbc_decrypt_loop}

pub length-xor_blocks : (a b : Block) → length (xor_blocks a b) ≡ length a
unfolding xor_blocks
length-xor_blocks [] b = refl
length-xor_blocks (x ∷ a) [] = refl
length-xor_blocks (x ∷ a) (y ∷ b) = ap suc (length-xor_blocks a b)

pub xor_blocks_cancel : (a b : Block) → xor_blocks (xor_blocks a b) b ≡ a
unfolding xor_blocks
xor_blocks_cancel [] b = refl
xor_blocks_cancel (x ∷ a) [] = refl
xor_blocks_cancel (x ∷ a) (y ∷ b) = cc (bit_xor_cancel x y, xor_blocks_cancel a b)

bit_xor_injective : (x y z : ℕ) → bit_xor (bit_xor x y) z ≡ x → y ≡ z
bit_xor_injective x y z e =
    sym (bit_xor_cancel_left x y)
    ∙ ap (bit_xor x) (sym (bit_xor_cancel (bit_xor x y) z) ∙ ap (λ t. bit_xor t z) e)
    ∙ bit_xor_cancel_left x z

xor_blocks_injective :
    (a p p' : Block)
    → length a ≡ length p
    → length a ≡ length p'
    → xor_blocks (xor_blocks a p) p' ≡ a
    → p ≡ p'
unfolding xor_blocks
xor_blocks_injective [] [] [] h k e = refl
xor_blocks_injective [] [] (z ∷ p') h k e = absurd (omega arith)
xor_blocks_injective [] (y ∷ p) p' h k e = absurd (omega arith)
xor_blocks_injective (x ∷ a) [] p' h k e = absurd (omega arith)
xor_blocks_injective (x ∷ a) (y ∷ p) [] h k e = absurd (omega arith)
xor_blocks_injective (x ∷ a) (y ∷ p) (z ∷ p') h k e =
    ap₂ ◌∷◌ (bit_xor_injective x y z (ap (λ l. get_or l 0 0) e))
      (xor_blocks_injective a p p' (omega arith) (omega arith) (ap (drop 1) e))

take_block : (b rest : Bytes) → length b ≡ 16 → take 16 (b ++ rest) ≡ b
take_block b rest h = subst (λ n. take n (b ++ rest) ≡ b) h (take-append b rest)

drop_block : (b rest : Bytes) → length b ≡ 16 → drop 16 (b ++ rest) ≡ rest
drop_block b rest h = subst (λ n. drop n (b ++ rest) ≡ rest) h (drop-append b rest)

take_whole : (xs : Bytes) (n : ℕ) → length xs ≡ n → take n xs ≡ xs
take_whole xs n h =
    subst (λ m. take m xs ≡ xs) h
      (subst (λ ys. take (length xs) ys ≡ xs) (append-nil xs) (take-append xs []))

length-take_block :
    (n : ℕ) (bytes : Bytes) → length bytes ≡ suc n * 16 → length (take 16 bytes) ≡ 16
length-take_block n bytes h = omega (arith, length-take 16 bytes)

length-drop_block :
    (n : ℕ) (bytes : Bytes) → length bytes ≡ suc n * 16 → length (drop 16 bytes) ≡ n * 16
length-drop_block n bytes h = omega (arith, length-drop 16 bytes)

module _ (cipher undo : Block → Block) (size : (b : Block) → length b ≡ 16 → length (cipher b) ≡ 16)
    (back : (b : Block) → length b ≡ 16 → undo (cipher b) ≡ b) where
  -- One turn of both loops, from initial blocks that may differ.
  cbc_turn :
      (n : ℕ) (previous previous' : Block) (bytes : Bytes)
      → length (take 16 bytes) ≡ 16
      → let first = xor_blocks (take 16 bytes) previous in
        cbc_decrypt_loop undo (suc n) previous' (cbc_encrypt_loop cipher (suc n) previous bytes)
        ≡ xor_blocks first previous'
          ++ cbc_decrypt_loop undo n
              (cipher first)
              (cbc_encrypt_loop cipher n (cipher first) (drop 16 bytes))
  unfolding cbc_decrypt_loop cbc_encrypt_loop
  cbc_turn n previous previous' bytes h =
      let first = xor_blocks (take 16 bytes) previous in
      let sized : length first ≡ 16 = length-xor_blocks (take 16 bytes) previous ∙ h in
      let rest = cbc_encrypt_loop cipher n (cipher first) (drop 16 bytes) in
      rw (
        take_block (cipher first) rest (size first sized),
        drop_block (cipher first) rest (size first sized),
        back first sized,
      )

  -- Where `undo` gives back every block of 16 bytes that `cipher` was given, the CBC decryption loop
  -- gives back whatever the CBC encryption loop was given, under the same initial block.
  pub cbc_decrypt_loop-cbc_encrypt_loop :
      (n : ℕ) (previous : Block) (bytes : Bytes)
      → length bytes ≡ n * 16
      → cbc_decrypt_loop undo n previous (cbc_encrypt_loop cipher n previous bytes) ≡ bytes
  unfolding cbc_decrypt_loop cbc_encrypt_loop
  cbc_decrypt_loop-cbc_encrypt_loop zero previous [] h = refl
  cbc_decrypt_loop-cbc_encrypt_loop zero previous (b ∷ bytes) h = absurd (omega arith)
  cbc_decrypt_loop-cbc_encrypt_loop (suc n) previous bytes h =
      cbc_turn n previous previous bytes (length-take_block n bytes h)
      ∙ ap₂ ◌++◌ (xor_blocks_cancel (take 16 bytes) previous)
          (cbc_decrypt_loop-cbc_encrypt_loop n _ (drop 16 bytes) (length-drop_block n bytes h))
      ∙ take-append-drop 16 bytes

  -- For block functions that undo one another, which those of the program do not, and if the two sides start
  -- from initial blocks of 16 bytes, decryption gives back the data exactly
  -- when the initial blocks are the same, all 16 bytes of them, not the 12 of the IV alone.
  pub cbc_decrypt_loop_iff :
      (n : ℕ) (previous previous' : Block) (bytes : Bytes)
      → length bytes ≡ suc n * 16
      → length previous ≡ 16
      → length previous' ≡ 16
      → (cbc_decrypt_loop undo (suc n) previous' (cbc_encrypt_loop cipher (suc n) previous bytes)
          ≡ bytes)
        ↔ (previous ≡ previous')
  cbc_decrypt_loop_iff n previous previous' bytes h k k' =
      let sized : length (take 16 bytes) ≡ 16 = length-take_block n bytes h in
      let first = xor_blocks (take 16 bytes) previous in
      let tail =
        cbc_decrypt_loop-cbc_encrypt_loop n (cipher first) (drop 16 bytes)
          (length-drop_block n bytes h) in
      let turn =
        cbc_turn n previous previous' bytes sized ∙ ap (◌++◌ (xor_blocks first previous')) tail in
      let long : length (xor_blocks first previous') ≡ 16 =
        length-xor_blocks first previous' ∙ length-xor_blocks (take 16 bytes) previous ∙ sized in
      (
        (λ e.
            xor_blocks_injective (take 16 bytes) previous previous' (sized ∙ sym k) (sized ∙ sym k')
              (sym (take_block (xor_blocks first previous') (drop 16 bytes) long)
                ∙ ap (take 16) (sym turn ∙ e))),
        (λ e.
            subst
              (λ p.
                cbc_decrypt_loop undo (suc n) p (cbc_encrypt_loop cipher (suc n) previous bytes)
                ≡ bytes)
              e (cbc_decrypt_loop-cbc_encrypt_loop (suc n) previous bytes h)),
      )
