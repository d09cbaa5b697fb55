-- ===== src/Tests/EncryptionRuns.antt =====
-- Runs of the operations of src/Encryption.cpp.
use barren_engine.Common.{
  ℕ, ◌+◌, ◌*◌, ◌/◌, ◌%◌, ◌≡◌, ◌≢◌, refl, true, [], ◌∷◌, ◌++◌, Bytes, length, replicate, arith, ok,
}
use barren_engine.Crypto.Modes.{Leftover, gcm, generate_iv}
use barren_engine.Crypto.Modes
use barren_engine.Encryption.{none, aes_256_gcm, chacha20_poly1305, encrypt, decrypt}
use barren_engine.Encryption.Framing.{decrypt-encrypt}

abbrev key : Bytes
key = replicate 16 7

abbrev leftover : Leftover
leftover = record { previous = replicate 4 0; tag = replicate 16 0 }

abbrev random : ℕ → ℕ
random i = i % 256

aes_supported : aes_256_gcm ≢ none
aes_supported e = absurd (ground arith)

chacha20_supported : chacha20_poly1305 ≢ none
chacha20_supported e = absurd (ground arith)

key_run : Modes.validate_key key ≡ true
unfolding Modes.validate_key
key_run = refl

abbrev message : Bytes
message = 1 ∷ 2 ∷ 3 ∷ []

decrypt-encrypt_example :
    let iv = generate_iv random in
    (c : Bytes) × (Modes.encrypt leftover message key iv gcm ≡ ok c)
    × ((encrypt random leftover message key aes_256_gcm ≡ ok (iv ++ c))
        × ((length (iv ++ c) ≡ (length message / 16 + 1) * 16 + 28)
            × (decrypt leftover (iv ++ c) key chacha20_poly1305
                ≡ Modes.decrypt leftover c key iv gcm)))
decrypt-encrypt_example =
    decrypt-encrypt random leftover leftover 1 (2 ∷ 3 ∷ []) key aes_256_gcm chacha20_poly1305
      aes_supported chacha20_supported key_run refl
