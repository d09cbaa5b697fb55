-- ===== src/VirtualSocket/Checksum.antt =====
-- `calculateChecksum` of src/virtual/VirtualSocket.cpp.
use barren_engine.Common.{
  ℕ, ◌+◌, ◌-◌, ◌*◌, ◌/◌, ◌%◌, ◌^◌, ◌<◌, ◌≡◌, [], ◌∷◌, Bytes, IsByte, All, ◌==◌, arith,
  if◌then◌else◌, if_cases, u32_mod,
}

-- One turn of the loop. The byte is put into the eight bits that the shift leaves empty, so that `|` is
-- a sum.
unfoldable pub checksum_step : ℕ → ℕ → ℕ
checksum_step checksum byte =
    let shifted = checksum * 256 % u32_mod + byte in
    if shifted / 2 ^ 24 == 0 then shifted else shifted % 2 ^ 24 + shifted / 2 ^ 24

unfoldable pub checksum_from : ℕ → Bytes → ℕ
checksum_from checksum [] = checksum
checksum_from checksum (byte ∷ bytes) = checksum_from (checksum_step checksum byte) bytes

unfoldable pub calculate_checksum : Bytes → ℕ
calculate_checksum bytes = checksum_from 0 bytes

-- The number of which the bytes are the digits, the first one the highest, from a first part on.
abbrev pub number_from : ℕ → Bytes → ℕ
number_from n [] = n
number_from n (byte ∷ bytes) = number_from (n * 256 + byte) bytes

checksum_step-lt : (checksum byte : ℕ) → byte < 256 → checksum_step checksum byte < 2 ^ 24 + 255
unfolding checksum_step
checksum_step-lt checksum byte h =
    if_cases (λ n. n < 2 ^ 24 + 255) ((checksum * 256 % u32_mod + byte) / 2 ^ 24 == 0) _ _
      (λ e. ground arith) (λ e. omega arith)

checksum_from-lt :
    (bytes : Bytes) (checksum : ℕ)
    → checksum < 2 ^ 24 + 255
    → All IsByte bytes
    → checksum_from checksum bytes < 2 ^ 24 + 255
unfolding checksum_from
checksum_from-lt [] checksum h b = h
checksum_from-lt (byte ∷ bytes) checksum h b =
    checksum_from-lt bytes (checksum_step checksum byte) (checksum_step-lt checksum byte b.0) b.1

-- The checksum of any bytes is below 2 ^ 24 + 255.
pub calculate_checksum-lt :
    (bytes : Bytes) → All IsByte bytes → calculate_checksum bytes < 2 ^ 24 + 255
unfolding calculate_checksum
calculate_checksum-lt bytes b = checksum_from-lt bytes 0 (omega arith) b

checksum_step_mod :
    (checksum byte : ℕ)
    → checksum < 2 ^ 24
    → byte < 256
    → checksum_step checksum byte % (2 ^ 24 - 1) ≡ (checksum * 256 + byte) % (2 ^ 24 - 1)
unfolding checksum_step
checksum_step_mod checksum byte h b =
    if_cases (λ n. n % (2 ^ 24 - 1) ≡ (checksum * 256 + byte) % (2 ^ 24 - 1))
      ((checksum * 256 % u32_mod + byte) / 2 ^ 24 == 0) _ _ (λ e. omega arith) (λ e. omega arith)

checksum_step_small :
    (checksum byte : ℕ)
    → checksum < 2 ^ 16
    → byte < 256
    → checksum_step checksum byte ≡ checksum * 256 + byte
unfolding checksum_step
checksum_step_small checksum byte h b =
    if_cases (λ n. n ≡ checksum * 256 + byte) ((checksum * 256 % u32_mod + byte) / 2 ^ 24 == 0) _ _
      (λ e. omega arith) (λ e. absurd (ground arith))

-- The checksum of four bytes is the number of which they are the digits, the first one the highest,
-- modulo 2 ^ 24 - 1.
pub calculate_checksum_mod :
    (a b c d : ℕ)
    → All IsByte (a ∷ b ∷ c ∷ d ∷ [])
    → calculate_checksum (a ∷ b ∷ c ∷ d ∷ []) % (2 ^ 24 - 1)
      ≡ (a * 2 ^ 24 + b * 2 ^ 16 + c * 2 ^ 8 + d) % (2 ^ 24 - 1)
unfolding calculate_checksum checksum_from
calculate_checksum_mod a b c d (ha, (hb, (hc, (hd, rest)))) =
    rw
      (
        checksum_step_small 0 a (omega arith) ha,
        checksum_step_small (0 * 256 + a) b (omega arith) hb,
        checksum_step_small ((0 * 256 + a) * 256 + b) c (omega arith) hc,
      )
      (omega (arith, checksum_step_mod (((0 * 256 + a) * 256 + b) * 256 + c) d (omega arith) hd))
