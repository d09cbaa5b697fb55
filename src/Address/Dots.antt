-- ===== src/Address/Dots.antt =====
-- Lemmas on the addresses that `validateAddress` of src/connection/ConnectionManager.cpp and
-- src/ProtocolManager.cpp accepts.
use barren_engine.Common.{ℕ, ◌+◌, ◌≡◌, true, List, [], ◌∷◌, Bytes, All, length, arith}
use barren_engine.Address.{is_octet, check_tokens}

abbrev pub IsOctet : Bytes → Type 0
IsOctet token = is_octet token ≡ true

pub check_tokens_lem :
    (count : ℕ) (ts : List Bytes)
    → check_tokens count ts ≡ true
    → (count + length ts ≡ 4) × All IsOctet ts
unfolding check_tokens
check_tokens_lem count [] h = (ground arith, tt)
check_tokens_lem count (t ∷ ts) h =
    let rest : check_tokens (count + 1) ts ≡ true = ground arith in
    let ih = check_tokens_lem (count + 1) ts rest in (omega (arith, ih.0), (ground arith, ih.1))

pub check_tokens-IsOctet :
    (count : ℕ) (ts : List Bytes)
    → count + length ts ≡ 4
    → All IsOctet ts
    → check_tokens count ts ≡ true
unfolding check_tokens
check_tokens-IsOctet count [] e h = ground arith
check_tokens-IsOctet count (t ∷ ts) e h = ground (arith, check_tokens-IsOctet (count + 1) ts)
