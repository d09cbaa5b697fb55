-- ===== src/Encryption/Framing.antt =====
-- The IV in front of the ciphertext of src/Encryption.cpp.
use barren_engine.Common.{
  ℕ, zero, suc, ◌+◌, ◌*◌, ◌/◌, ◌≡◌, ◌≢◌, refl, ap, subst, true, false, [], ◌∷◌, ◌++◌, Bytes,
  is_empty, length, take, drop, ltb, ok, arith, length-append, take-append, drop-append,
}
use barren_engine.Crypto.Modes.{Leftover, gcm, draw, generate_iv}
use barren_engine.Crypto.Modes.Sizes.{encrypt_sizes}
use barren_engine.Crypto.Modes
use barren_engine.Encryption.{
  Algorithm, none, aes_256_gcm, chacha20_poly1305, encrypt, decrypt, mode_of, key_size_of,
  generate_key, validate_key,
}

length-draw : (random : ℕ → ℕ) (n i : ℕ) → length (draw random n i) ≡ n
unfolding draw
length-draw random zero i = refl
length-draw random (suc n) i = ap suc (length-draw random n (i + 1))

length-generate_iv : (random : ℕ → ℕ) → length (generate_iv random) ≡ 12
unfolding generate_iv
length-generate_iv random = length-draw random 12 0

validate_drawn : (random : ℕ → ℕ) → Modes.validate_key (draw random 32 0) ≡ true
unfolding Modes.validate_key
validate_drawn random = ground (arith, length-draw random 32 0)

-- For every algorithm but `NONE` a key is generated; it has 32 bytes, and it passes the validation for every
-- algorithm but `NONE`.
pub validate_key-generate_key :
    (random : ℕ → ℕ) (a b : Algorithm)
    → a ≢ none
    → b ≢ none
    → (key : Bytes) × (generate_key random a ≡ ok key)
      × ((length key ≡ 32) × (validate_key key b ≡ ok true))
unfolding generate_key validate_key key_size_of Modes.generate_key
validate_key-generate_key random none b h k = absurd (h refl)
validate_key-generate_key random a none h k = absurd (k refl)
validate_key-generate_key random aes_256_gcm aes_256_gcm h k =
    (draw random 32 0, refl, (length-draw random 32 0, ap ok (validate_drawn random)))
validate_key-generate_key random aes_256_gcm chacha20_poly1305 h k =
    (draw random 32 0, refl, (length-draw random 32 0, ap ok (validate_drawn random)))
validate_key-generate_key random chacha20_poly1305 aes_256_gcm h k =
    (draw random 32 0, refl, (length-draw random 32 0, ap ok (validate_drawn random)))
validate_key-generate_key random chacha20_poly1305 chacha20_poly1305 h k =
    (draw random 32 0, refl, (length-draw random 32 0, ap ok (validate_drawn random)))

mode_of_gcm : (a : Algorithm) → a ≢ none → mode_of a ≡ ok gcm
unfolding mode_of
mode_of_gcm none h = absurd (h refl)
mode_of_gcm aes_256_gcm h = refl
mode_of_gcm chacha20_poly1305 h = refl

-- `encrypt` of data that is not empty, under an algorithm other than `NONE` and a key of 16 or 32 bytes, gives the IV
-- followed by a ciphertext of the cipher in GCM mode.
encrypted :
    (random : ℕ → ℕ) (l : Leftover) (b : ℕ) (bytes key : Bytes) (a : Algorithm)
    → a ≢ none
    → Modes.validate_key key ≡ true
    → let c = Modes.encrypt_in gcm l (b ∷ bytes) key (generate_iv random) in
      (Modes.encrypt l (b ∷ bytes) key (generate_iv random) gcm ≡ ok c)
      × (encrypt random l (b ∷ bytes) key a ≡ ok (generate_iv random ++ c))
unfolding encrypt Modes.encrypt Modes.validate_iv
encrypted random l b bytes key a h k =
    let e = length-generate_iv random in
    let f : Modes.validate_iv (generate_iv random) ≡ true = ground (arith, e) in
    let g : Modes.encrypt l (b ∷ bytes) key (generate_iv random) gcm
        ≡ ok (Modes.encrypt_in gcm l (b ∷ bytes) key (generate_iv random)) =
      rw (Modes.encrypt, k, f) refl in
    (g, rw (encrypt, mode_of_gcm a h, g) refl)

not_empty : (iv c : Bytes) → length iv ≡ 12 → is_empty (iv ++ c) ≡ false
not_empty [] c h = absurd (omega arith)
not_empty (x ∷ iv) c h = refl

decrypted :
    (l : Leftover) (iv c key : Bytes) (a : Algorithm)
    → a ≢ none
    → length iv ≡ 12
    → decrypt l (iv ++ c) key a ≡ Modes.decrypt l c key iv gcm
unfolding decrypt
decrypted l iv c key a h k =
    let t : take 12 (iv ++ c) ≡ iv = subst (λ n. take n (iv ++ c) ≡ iv) k (take-append iv c) in
    let r : drop 12 (iv ++ c) ≡ c = subst (λ n. drop n (iv ++ c) ≡ c) k (drop-append iv c) in
    let s : ltb (length (iv ++ c)) 12 ≡ false = ground (arith, length-append iv c) in
    rw (decrypt, not_empty iv c k, s, mode_of_gcm a h, t, r) refl

-- Under an algorithm other than `NONE` and a key of 16 or 32 bytes, `encrypt` of data that is not empty
-- gives the generated IV followed by what the cipher gives for that IV in GCM mode; if the tag takes 16 bytes, its size
-- is 28 bytes, one block for each whole block of the data and one block more; and `decrypt` of it, under any algorithm other than `NONE`, is what the cipher
-- decrypts under that same IV.
pub decrypt-encrypt :
    (random : ℕ → ℕ) (l l' : Leftover) (x : ℕ) (bytes key : Bytes) (a b : Algorithm)
    → a ≢ none
    → b ≢ none
    → Modes.validate_key key ≡ true
    → length l.tag ≡ 16
    → let iv = generate_iv random in
      (c : Bytes) × (Modes.encrypt l (x ∷ bytes) key iv gcm ≡ ok c)
      × ((encrypt random l (x ∷ bytes) key a ≡ ok (iv ++ c))
          × ((length (iv ++ c) ≡ (length (x ∷ bytes) / 16 + 1) * 16 + 28)
              × (decrypt l' (iv ++ c) key b ≡ Modes.decrypt l' c key iv gcm)))
decrypt-encrypt random l l' x bytes key a b h h' k t =
    let iv = generate_iv random in
    let e = encrypted random l x bytes key a h k in
    let c = Modes.encrypt_in gcm l (x ∷ bytes) key iv in
    let size = encrypt_sizes l (x ∷ bytes) key iv gcm t e.0 in
    (
      c,
      e.0,
      (
        e.1,
        (
          omega (arith, size.0, length-append iv c, length-generate_iv random),
          decrypted l' iv c key b h' (length-generate_iv random),
        ),
      ),
    )
