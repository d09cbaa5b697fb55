-- ===== src/Crypto/Hash.antt =====
-- `hash`, `sign` and `verify` of src/Crypto.cpp. A `uint32_t` is a number below 2 ^ 32 and each
-- operation on it wraps.
pub mod Signatures
pub mod Memory
use barren_engine.Common.{
  ℕ, ◌+◌, ◌*◌, ◌/◌, ◌%◌, ◌^◌, Bool, true, false, ◌&&◌, List, [], ◌∷◌, ◌++◌, Bytes, bytes_eq,
  u32_mod,
}

-- `h = (h + data[i]) * constant` on `uint32_t`.
unfoldable pub hash_step : ℕ → ℕ → ℕ → ℕ
hash_step constant h byte = (h + byte) % u32_mod * constant % u32_mod

unfoldable pub hash_word : ℕ → ℕ → Bytes → ℕ
hash_word constant h [] = h
hash_word constant h (byte ∷ bytes) = hash_word constant (hash_step constant h byte) bytes

-- The four bytes of a word, the most significant first.
unfoldable pub store_word : ℕ → Bytes
store_word h = h / 2 ^ 24 % 256 ∷ h / 2 ^ 16 % 256 ∷ h / 2 ^ 8 % 256 ∷ h % 256 ∷ []

-- One of the eight words; its constant is its initial value too.
unfoldable pub digest_word : ℕ → Bytes → Bytes
digest_word constant bytes = store_word (hash_word constant constant bytes)

unfoldable pub hash : Bytes → Bytes
hash bytes =
    digest_word 0x6a09e667 bytes
    ++ (digest_word 0xbb67ae85 bytes
        ++ (digest_word 0x3c6ef372 bytes
            ++ (digest_word 0xa54ff53a bytes
                ++ (digest_word 0x510e527f bytes
                    ++ (digest_word 0x9b05688c bytes
                        ++ (digest_word 0x1f83d9ab bytes ++ digest_word 0x5be0cd19 bytes))))))

unfoldable pub sign : Bytes → Bytes → Bytes
sign bytes key = hash (bytes ++ key)

unfoldable pub verify : Bytes → Bytes → Bytes → Bool
verify bytes signature key = bytes_eq (sign bytes key) signature
