-- ===== src/Tests/CryptoRuns.antt =====
-- Runs of the operations of src/Crypto.cpp.
use barren_engine.Common.{
  ◌+◌, ◌*◌, ◌/◌, ◌≡◌, refl, ◌⊎◌, [], ◌∷◌, ◌++◌, Bytes, length, take, drop, replicate, arith, ok,
  throw, runtime_error,
}
use barren_engine.Crypto.Block.{
  sub_bytes, inv_sub_bytes, shift_rows, xor_blocks, encrypt_block, rounds, encrypt_round,
  mix_columns, mix_column, generate_round_key, chain_words,
}
use barren_engine.Crypto.Block.Inverses.{inv_sub_bytes-sub_bytes}
use barren_engine.Crypto.Padding.{pad_block, unpad_block}
use barren_engine.Crypto.Padding.RoundTrip.{unpad_block-pad_block, unpad_block_cases}
use barren_engine.Crypto.Modes.{
  cbc, gcm, Leftover, cbc_encrypt_loop, encrypt, encrypt_in, encrypt_gcm, encrypt_cbc, decrypt,
}
use barren_engine.Crypto.Modes.Sizes.{encrypt_sizes}
use barren_engine.Crypto.Modes.Tags.{decrypt_any_tag}
use barren_engine.Crypto.Hash.{hash}
use barren_engine.Crypto.Hash.Memory.{hash_forgets_prefix}

sub_bytes_run : sub_bytes (0 ∷ 83 ∷ 255 ∷ []) ≡ 99 ∷ 237 ∷ 22 ∷ []
unfolding sub_bytes
sub_bytes_run = refl

unpad_block_run : unpad_block (1 ∷ 2 ∷ 3 ∷ 17 ∷ []) ≡ throw runtime_error
unfolding unpad_block
unpad_block_run = refl

unpad_block-pad_block_example : unpad_block (pad_block (1 ∷ 2 ∷ 3 ∷ [])) ≡ ok (1 ∷ 2 ∷ 3 ∷ [])
unpad_block-pad_block_example = unpad_block-pad_block (1 ∷ 2 ∷ 3 ∷ [])

unpad_block_cases_example : unpad_block (7 ∷ 8 ∷ 9 ∷ 2 ∷ []) ≡ ok (7 ∷ 8 ∷ [])
unpad_block_cases_example = unpad_block_cases (7 ∷ 8 ∷ 9 ∷ []) 2

-- A block function that is its own inverse, in place of the block cipher.
inv_sub_bytes-sub_bytes_example : inv_sub_bytes (sub_bytes (0 ∷ 83 ∷ 255 ∷ [])) ≡ 0 ∷ 83 ∷ 255 ∷ []
inv_sub_bytes-sub_bytes_example =
    inv_sub_bytes-sub_bytes (0 ∷ 83 ∷ 255 ∷ []) (omega arith, (omega arith, (omega arith, tt)))

abbrev leftover : Leftover
leftover = record { previous = replicate 4 0; tag = replicate 16 7 }

abbrev key : Bytes
key = replicate 16 3

abbrev iv : Bytes
iv = replicate 12 4

decrypt_any_tag_example :
    decrypt leftover (replicate 16 6 ++ replicate 16 8) key iv gcm
    ≡ decrypt leftover (replicate 16 6) key iv cbc
decrypt_any_tag_example = decrypt_any_tag leftover (replicate 16 6) (replicate 16 8) key iv refl

abbrev last_bytes : Bytes
last_bytes = replicate 32 9

hash_forgets_prefix_example :
    (take 8 (drop 8 (hash ((1 ∷ []) ++ last_bytes)))
      ≡ take 8 (drop 8 (hash ((2 ∷ 3 ∷ []) ++ last_bytes))))
    × (take 4 (drop 20 (hash ((1 ∷ []) ++ last_bytes)))
        ≡ take 4 (drop 20 (hash ((2 ∷ 3 ∷ []) ++ last_bytes))))
hash_forgets_prefix_example = hash_forgets_prefix (1 ∷ []) (2 ∷ 3 ∷ []) last_bytes refl

-- One byte in GCM mode: a block, and the 16 bytes that the memory of the tag held.
abbrev ciphertext : Bytes
ciphertext =
    189
    ∷ 205
    ∷ 60
    ∷ 126
    ∷ 246
    ∷ 211
    ∷ 186
    ∷ 60
    ∷ 5
    ∷ 244
    ∷ 177
    ∷ 78
    ∷ 46
    ∷ 29
    ∷ 130
    ∷ 85
    ∷ replicate 16 7

encrypt_run : encrypt leftover (1 ∷ []) key iv gcm ≡ ok ciphertext
unfolding encrypt encrypt_in encrypt_gcm encrypt_cbc cbc_encrypt_loop pad_block encrypt_block rounds
    encrypt_round xor_blocks shift_rows sub_bytes mix_columns mix_column generate_round_key
    chain_words
encrypt_run = refl

encrypt_sizes_example :
    (length ciphertext ≡ (1 / 16 + 1) * 16 + 16)
    × ((length key ≡ 16) ⊎ (length key ≡ 32))
    × (length iv ≡ 12)
encrypt_sizes_example = encrypt_sizes leftover (1 ∷ []) key iv gcm {c = ciphertext} refl encrypt_run
