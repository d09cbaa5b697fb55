-- ===== src/Crypto/Modes/Tags.antt =====
-- Lemmas on GCM mode of src/Crypto.cpp.
use barren_engine.Common.{◌≡◌, ◌++◌, Bytes, length, arith, length-append, take-append}
use barren_engine.Crypto.Modes.{Leftover, cbc, gcm, decrypt_cbc, decrypt_gcm, decrypt_in, decrypt}

decrypt_gcm-append :
    (l : Leftover) (c tag key iv : Bytes)
    → length tag ≡ 16
    → decrypt_gcm l (c ++ tag) key iv ≡ decrypt_cbc l c key iv
unfolding decrypt_gcm
decrypt_gcm-append l c tag key iv h = ground (arith, length-append c tag, take-append c tag)

-- Decryption in GCM mode gives the same result whatever the 16 bytes of the tag are: the result of
-- CBC mode on the rest. No tampering with data or tag is detected by the tag.
pub decrypt_any_tag :
    (l : Leftover) (c tag key iv : Bytes)
    → length tag ≡ 16
    → decrypt l (c ++ tag) key iv gcm ≡ decrypt l c key iv cbc
unfolding decrypt decrypt_in
decrypt_any_tag l c tag key iv h = rw (decrypt_gcm-append l c tag key iv h)
