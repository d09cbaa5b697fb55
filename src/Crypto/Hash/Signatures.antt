-- ===== src/Crypto/Hash/Signatures.antt =====
-- Lemmas on `sign` and `verify` of src/Crypto.cpp.
use barren_engine.Common.{
  ◌≡◌, ◌↔◌, refl, true, ◌++◌, Bytes, IsByte, All, length, arith, append_assoc, bytes_eq_iff,
}
use barren_engine.Crypto.Hash.{hash, store_word, digest_word, sign, verify}

-- A digest has 32 bytes.
pub hash_shape : (bytes : Bytes) → (length (hash bytes) ≡ 32) × All IsByte (hash bytes)
unfolding hash digest_word store_word
hash_shape bytes = (refl, omega arith)

-- `verify` accepts exactly the signature that `sign` makes with the same key.
pub verify_iff :
    (bytes signature key : Bytes)
    → (verify bytes signature key ≡ true) ↔ (signature ≡ sign bytes key)
unfolding verify
verify_iff bytes signature key = ground (arith, bytes_eq_iff (sign bytes key) signature)

-- The boundary between data and key is not signed: a signature carries over to any other split of
-- the same bytes.
pub verify_regroup :
    (bytes suffix key signature : Bytes)
    → verify (bytes ++ suffix) signature key ≡ verify bytes signature (suffix ++ key)
unfolding verify sign
verify_regroup bytes suffix key signature = rw (append_assoc bytes suffix key)
