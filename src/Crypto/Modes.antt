-- ===== src/Crypto/Modes.antt =====
-- Keys, IVs and the block cipher modes of src/Crypto.cpp. Random bytes are a function from the
-- number of the draw. A `std::array` that the code does not fill holds whatever its memory held: the
-- last four bytes of `previousBlock` (`std::copy` writes the 12 bytes of the IV only) and the tag of
-- GCM mode are the fields of a record `Leftover`, an argument of each call.
pub mod RoundTrip
pub mod Sizes
pub mod Tags
use barren_engine.Common.{
  ℕ, zero, suc, ◌+◌, ◌-◌, ◌/◌, ◌%◌, ◌≡◌, Bool, ◌||◌, ◌&&◌, not, List, [], ◌∷◌, ◌++◌, Bytes, IsByte,
  All, length, take, drop, ltb, ◌==◌, if◌then◌else◌, Result, ok, throw, throw_if, invalid_argument,
  ◌>>=◌, ◌>>◌,
}
use barren_engine.Crypto.Block.{
  Block, IsBlock, block_size, xor_blocks, encrypt_block, decrypt_block,
}
use barren_engine.Crypto.Padding.{pad_block, unpad_block}

abbrev pub key_size_128 : ℕ
key_size_128 = 128

abbrev pub key_size_256 : ℕ
key_size_256 = 256

abbrev pub gcm_tag_size : ℕ
gcm_tag_size = 16

abbrev pub iv_size : ℕ
iv_size = 12

pub data Mode : Type 0 where
  ecb cbc gcm : Mode

pub record Leftover : Type 0 where
  pub previous : Bytes
  pub tag : Bytes

-- `n` draws of `dis(gen)`, numbered from `i` on.
unfoldable pub draw : (ℕ → ℕ) → ℕ → ℕ → Bytes
draw random zero i = []
draw random (suc n) i = random i ∷ draw random n (i + 1)

unfoldable pub generate_key : (ℕ → ℕ) → ℕ → Result Bytes
unfolding draw
generate_key random key_size =
    if not (key_size == key_size_128) && not (key_size == key_size_256)
    then throw invalid_argument
    else ok (draw random (key_size / 8) 0)

unfoldable pub generate_iv : (ℕ → ℕ) → Bytes
unfolding draw
generate_iv random = draw random iv_size 0

unfoldable pub validate_key : Bytes → Bool
validate_key key = length key == key_size_128 / 8 || length key == key_size_256 / 8

unfoldable pub validate_iv : Bytes → Bool
validate_iv iv = length iv == iv_size

-- The loops over the blocks of a vector, for any block function; the first argument counts the
-- blocks that are left.
unfoldable pub ecb_loop : (Block → Block) → ℕ → Bytes → Bytes
ecb_loop cipher zero rest = []
ecb_loop cipher (suc n) rest =
    cipher (take block_size rest) ++ ecb_loop cipher n (drop block_size rest)

unfoldable pub cbc_encrypt_loop : (Block → Block) → ℕ → Block → Bytes → Bytes
cbc_encrypt_loop cipher zero previous rest = []
cbc_encrypt_loop cipher (suc n) previous rest =
    let block = cipher (xor_blocks (take block_size rest) previous) in
    block ++ cbc_encrypt_loop cipher n block (drop block_size rest)

unfoldable pub cbc_decrypt_loop : (Block → Block) → ℕ → Block → Bytes → Bytes
cbc_decrypt_loop cipher zero previous rest = []
cbc_decrypt_loop cipher (suc n) previous rest =
    let current = take block_size rest in
    xor_blocks (cipher current) previous ++ cbc_decrypt_loop cipher n current (drop block_size rest)

-- `keyArray`.
abbrev pub key_array : Bytes → Block
key_array key = take block_size key

unfoldable pub encrypt_ecb : Bytes → Bytes → Bytes
encrypt_ecb bytes key =
    let padded = pad_block bytes in
    ecb_loop (λ block. encrypt_block block (key_array key)) (length padded / block_size) padded

unfoldable pub decrypt_ecb : Bytes → Bytes → Result Bytes
decrypt_ecb bytes key = do
  throw_if (not (length bytes % block_size == 0)) invalid_argument
  unpad_block
      (ecb_loop (λ block. decrypt_block block (key_array key)) (length bytes / block_size) bytes)

unfoldable pub encrypt_cbc : Leftover → Bytes → Bytes → Bytes → Bytes
encrypt_cbc l bytes key iv =
    let padded = pad_block bytes in
    cbc_encrypt_loop (λ block. encrypt_block block (key_array key)) (length padded / block_size)
      (iv ++ l.previous) padded

unfoldable pub decrypt_cbc : Leftover → Bytes → Bytes → Bytes → Result Bytes
decrypt_cbc l bytes key iv = do
  throw_if (not (length bytes % block_size == 0)) invalid_argument
  unpad_block (
      cbc_decrypt_loop (λ block. decrypt_block block (key_array key)) (length bytes / block_size)
        (iv ++ l.previous) bytes)

-- The tag that is appended is never computed.
unfoldable pub encrypt_gcm : Leftover → Bytes → Bytes → Bytes → Bytes
encrypt_gcm l bytes key iv = encrypt_cbc l bytes key iv ++ l.tag

-- The tag that was received is copied out and not looked at.
unfoldable pub decrypt_gcm : Leftover → Bytes → Bytes → Bytes → Result Bytes
decrypt_gcm l bytes key iv = do
  throw_if (ltb (length bytes) gcm_tag_size) invalid_argument
  decrypt_cbc l (take (length bytes - gcm_tag_size) bytes) key iv

unfoldable pub encrypt_in : Mode → Leftover → Bytes → Bytes → Bytes → Bytes
encrypt_in ecb l bytes key iv = encrypt_ecb bytes key
encrypt_in cbc l bytes key iv = encrypt_cbc l bytes key iv
encrypt_in gcm l bytes key iv = encrypt_gcm l bytes key iv

unfoldable pub decrypt_in : Mode → Leftover → Bytes → Bytes → Bytes → Result Bytes
decrypt_in ecb l bytes key iv = decrypt_ecb bytes key
decrypt_in cbc l bytes key iv = decrypt_cbc l bytes key iv
decrypt_in gcm l bytes key iv = decrypt_gcm l bytes key iv

unfoldable pub encrypt : Leftover → Bytes → Bytes → Bytes → Mode → Result Bytes
unfolding validate_key validate_iv
encrypt l bytes key iv mode = do
  throw_if (not (validate_key key) || not (validate_iv iv)) invalid_argument
  ok (encrypt_in mode l bytes key iv)

unfoldable pub decrypt : Leftover → Bytes → Bytes → Bytes → Mode → Result Bytes
unfolding validate_key validate_iv
decrypt l bytes key iv mode = do
  throw_if (not (validate_key key) || not (validate_iv iv)) invalid_argument
  decrypt_in mode l bytes key iv
