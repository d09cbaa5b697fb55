-- ===== src/Crypto/Modes/Sizes.antt =====
-- Lemmas on the size of what `encrypt` of src/Crypto.cpp returns.
use barren_engine.Common.{
  ℕ, zero, suc, ◌+◌, ◌*◌, ◌/◌, ◌≤◌, ◌≡◌, refl, sym, ◌⊎◌, ap, ◌∙◌, [], ◌∷◌, ◌++◌, Bytes, length,
  take, drop, arith, length-append, length-take, length-drop, length-map, Bool-cases, inl, inr, ltb,
  ok,
}
use barren_engine.Crypto.Block.{
  Block, xor_blocks, rotate, sub_bytes, shift_rows, mix_column, mix_columns, generate_round_key,
  encrypt_round, rounds, encrypt_block,
}
use barren_engine.Crypto.Padding.{padding_size, pad_block}
use barren_engine.Crypto.Padding.RoundTrip.{length-pad_block}
use barren_engine.Crypto.Modes.RoundTrip.{length-xor_blocks}
use barren_engine.Crypto.Modes.{
  Mode, ecb, cbc, gcm, Leftover, ecb_loop, cbc_encrypt_loop, key_array, encrypt_ecb, encrypt_cbc,
  encrypt_gcm, encrypt_in, encrypt, validate_key, validate_iv,
}

length-rotate :
    (lo mid hi : ℕ) (b : Block)
    → lo ≤ mid
    → mid ≤ hi
    → hi ≤ length b
    → length (rotate lo mid hi b) ≡ length b
length-rotate lo mid hi b h k l = omega (
  arith,
  length-append (take lo b) (drop mid (take hi b) ++ (drop lo (take mid b) ++ drop hi b)),
  length-append (drop mid (take hi b)) (drop lo (take mid b) ++ drop hi b),
  length-append (drop lo (take mid b)) (drop hi b),
  length-take lo b,
  length-drop mid (take hi b),
  length-take hi b,
  length-drop lo (take mid b),
  length-take mid b,
  length-drop hi b,
)

length-sub_bytes : (b : Block) → length (sub_bytes b) ≡ length b
unfolding sub_bytes
length-sub_bytes b = length-map _ b

length-shift_rows : (b : Block) → length b ≡ 16 → length (shift_rows b) ≡ 16
unfolding shift_rows
length-shift_rows b h =
    let one = length-rotate 4 5 8 b (omega arith) (omega arith) (omega arith) in
    let two = length-rotate 8 10 12 (rotate 4 5 8 b) (omega arith) (omega arith) (omega arith) in
    let three =
      length-rotate 12 15 16 (rotate 8 10 12 (rotate 4 5 8 b)) (omega arith) (omega arith)
        (omega arith) in
    three ∙ two ∙ one ∙ h

length-mix_columns : (b : Block) → length (mix_columns b) ≡ length b
unfolding mix_columns mix_column
length-mix_columns [] = refl
length-mix_columns (a ∷ []) = refl
length-mix_columns (a ∷ b ∷ []) = refl
length-mix_columns (a ∷ b ∷ c ∷ []) = refl
length-mix_columns (a ∷ b ∷ c ∷ d ∷ rest) =
    ap (λ n. suc (suc (suc (suc n)))) (length-mix_columns rest)

length-encrypt_round :
    (key : Block) (round : ℕ) (b : Block) → length b ≡ 16 → length (encrypt_round key round b) ≡ 16
unfolding encrypt_round
length-encrypt_round key round b h =
    let shifted = shift_rows (sub_bytes b) in
    let size : length shifted ≡ 16 = length-shift_rows (sub_bytes b) (length-sub_bytes b ∙ h) in
    let mixed = length-mix_columns shifted ∙ size in
    elim (Bool-cases (ltb round 9)) [
      | inl early ↦
          rw early (length-xor_blocks (mix_columns shifted) (generate_round_key key round) ∙ mixed)
      | inr last ↦ rw last (length-xor_blocks shifted (generate_round_key key round) ∙ size)
    ]

length-rounds :
    (body : ℕ → Block → Block)
    → ((round : ℕ) (b : Block) → length b ≡ 16 → length (body round b) ≡ 16)
    → (n round : ℕ) (b : Block) → length b ≡ 16
    → length (rounds body n round b) ≡ 16
unfolding rounds
length-rounds body keeps zero round b h = h
length-rounds body keeps (suc n) round b h =
    length-rounds body keeps n (round + 1) (body round b) (keeps round b h)

pub length-encrypt_block : (b key : Block) → length b ≡ 16 → length (encrypt_block b key) ≡ 16
length-encrypt_block b key h =
    unfold encrypt_block in
    length-rounds (encrypt_round key) (length-encrypt_round key) 10 0 (xor_blocks b key)
      (length-xor_blocks b key ∙ h)

module _ (cipher : Block → Block)
    (size : (b : Block) → length b ≡ 16 → length (cipher b) ≡ 16) where
  length-ecb_loop :
      (n : ℕ) (bytes : Bytes) → length bytes ≡ n * 16 → length (ecb_loop cipher n bytes) ≡ n * 16
  unfolding ecb_loop
  length-ecb_loop zero bytes h = refl
  length-ecb_loop (suc n) bytes h = omega (
    arith,
    length-append (cipher (take 16 bytes)) (ecb_loop cipher n (drop 16 bytes)),
    size (take 16 bytes) (omega (arith, length-take 16 bytes)),
    length-ecb_loop n (drop 16 bytes) (omega (arith, length-drop 16 bytes)),
  )

  length-cbc_encrypt_loop :
      (n : ℕ) (previous : Block) (bytes : Bytes)
      → length bytes ≡ n * 16
      → length (cbc_encrypt_loop cipher n previous bytes) ≡ n * 16
  unfolding cbc_encrypt_loop
  length-cbc_encrypt_loop zero previous bytes h = refl
  length-cbc_encrypt_loop (suc n) previous bytes h =
      let block = cipher (xor_blocks (take 16 bytes) previous) in
      omega (
        arith,
        length-append block (cbc_encrypt_loop cipher n block (drop 16 bytes)),
        size (xor_blocks (take 16 bytes) previous)
            (length-xor_blocks (take 16 bytes) previous ∙ omega (arith, length-take 16 bytes)),
        length-cbc_encrypt_loop n block (drop 16 bytes) (omega (arith, length-drop 16 bytes)),
      )

-- The bytes that the mode adds behind the padded data.
abbrev pub overhead : Mode → ℕ
overhead ecb = 0
overhead cbc = 0
overhead gcm = 16

blocks_of_padded : (bytes : Bytes) → length (pad_block bytes) ≡ length (pad_block bytes) / 16 * 16
unfolding padding_size
blocks_of_padded bytes = omega (arith, length-pad_block bytes)

padded_size : (bytes : Bytes) → length (pad_block bytes) ≡ (length bytes / 16 + 1) * 16
unfolding padding_size
padded_size bytes = omega (arith, length-pad_block bytes)

block_cipher_size : (key b : Bytes) → length b ≡ 16 → length (encrypt_block b (key_array key)) ≡ 16
block_cipher_size key b = length-encrypt_block b (key_array key)

length-encrypt_cbc :
    (l : Leftover) (bytes key iv : Bytes)
    → length (encrypt_cbc l bytes key iv) ≡ (length bytes / 16 + 1) * 16
unfolding encrypt_cbc
length-encrypt_cbc l bytes key iv =
    length-cbc_encrypt_loop (λ b. encrypt_block b (key_array key)) (block_cipher_size key)
      (length (pad_block bytes) / 16) (iv ++ l.previous) (pad_block bytes) (blocks_of_padded bytes)
    ∙ sym (blocks_of_padded bytes)
    ∙ padded_size bytes

length-encrypt_in :
    (mode : Mode) (l : Leftover) (bytes key iv : Bytes)
    → length l.tag ≡ 16
    → length (encrypt_in mode l bytes key iv) ≡ (length bytes / 16 + 1) * 16 + overhead mode
unfolding encrypt_in encrypt_ecb encrypt_gcm
length-encrypt_in ecb l bytes key iv h = omega (
  arith,
  length-ecb_loop (λ b. encrypt_block b (key_array key)) (block_cipher_size key)
      (length (pad_block bytes) / 16) (pad_block bytes) (blocks_of_padded bytes),
  blocks_of_padded bytes,
  padded_size bytes,
)
length-encrypt_in cbc l bytes key iv h = omega (arith, length-encrypt_cbc l bytes key iv)
length-encrypt_in gcm l bytes key iv h =
    omega
      (arith, length-append (encrypt_cbc l bytes key iv) l.tag, length-encrypt_cbc l bytes key iv)

-- If `encrypt` returns, the key has 16 or 32 bytes and the IV has 12, and the ciphertext has one block
-- for each started block of the data and at least one more byte of padding, plus, in GCM mode, the 16
-- bytes of the memory of the tag.
pub encrypt_sizes :
    (l : Leftover) (bytes key iv : Bytes) (mode : Mode) {c : Bytes}
    → length l.tag ≡ 16
    → encrypt l bytes key iv mode ≡ ok c
    → (length c ≡ (length bytes / 16 + 1) * 16 + overhead mode)
      × ((length key ≡ 16) ⊎ (length key ≡ 32))
      × (length iv ≡ 12)
unfolding encrypt validate_key validate_iv
encrypt_sizes l bytes key iv mode h e = ground (arith, length-encrypt_in mode l bytes key iv h)
