-- ===== src/Encryption.antt =====
-- `Encryption` in Encryption.hpp and src/Encryption.cpp, the wrapper of src/Crypto.cpp that prepends the IV.
-- Random bytes and leftover memory are arguments, as for the modes of the cipher.
pub mod Framing
use barren_engine.Common.{
  ℕ, Bool, List, [], ◌∷◌, ◌++◌, Bytes, is_empty, length, take, drop, ltb, if◌then◌else◌, Result, ok,
  throw, throw_if, runtime_error, ◌>>=◌, ◌>>◌,
}
use barren_engine.Crypto.Modes.{Mode, gcm, Leftover, iv_size, key_size_256}
use barren_engine.Crypto.Modes

pub data Algorithm : Type 0 where
  none aes_256_gcm chacha20_poly1305 : Algorithm

-- The `switch` of `encrypt` and of `decrypt`.
unfoldable pub mode_of : Algorithm → Result Mode
mode_of aes_256_gcm = ok gcm
mode_of chacha20_poly1305 = ok gcm
mode_of none = throw runtime_error

-- The `switch` of `generateKey` and of `validateKey`.
unfoldable pub key_size_of : Algorithm → Result ℕ
key_size_of aes_256_gcm = ok key_size_256
key_size_of chacha20_poly1305 = ok key_size_256
key_size_of none = throw runtime_error

unfoldable pub encrypt : (ℕ → ℕ) → Leftover → Bytes → Bytes → Algorithm → Result Bytes
unfolding mode_of
encrypt random l bytes key algorithm =
    let iv = Modes.generate_iv random in
    if is_empty bytes
    then ok bytes
    else (mode_of algorithm
        >>= (λ mode. Modes.encrypt l bytes key iv mode)
        >>= (λ encrypted. ok (iv ++ encrypted)))

unfoldable pub decrypt : Leftover → Bytes → Bytes → Algorithm → Result Bytes
unfolding mode_of
decrypt l encrypted key algorithm =
    if is_empty encrypted
    then ok encrypted
    else (throw_if (ltb (length encrypted) iv_size) runtime_error
        >> (mode_of algorithm >>= (λ mode.
            Modes.decrypt l (drop iv_size encrypted) key (take iv_size encrypted) mode)))

unfoldable pub generate_key : (ℕ → ℕ) → Algorithm → Result Bytes
unfolding key_size_of
generate_key random algorithm = key_size_of algorithm >>= (λ size. Modes.generate_key random size)

-- The expected size is not looked at.
unfoldable pub validate_key : Bytes → Algorithm → Result Bool
unfolding key_size_of
validate_key key algorithm = key_size_of algorithm >>= (λ size. ok (Modes.validate_key key))
