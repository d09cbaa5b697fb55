-- ===== src/Crypto/Block/Inverses.antt =====
-- The steps of `decryptBlock` in src/Crypto.cpp beside those of `encryptBlock`.
use barren_engine.Common.{
  ℕ, zero, suc, ◌+◌, ◌<◌, ◌≡◌, List, length, refl, ap₂, Bool, true, ◌&&◌, [], ◌∷◌, IsByte, All,
  get_or, ◌==◌, arith,
}
use barren_engine.Crypto.Tables.{sbox, inv_sbox}
use barren_engine.Crypto.Block.{Block, sub_bytes, inv_sub_bytes, shift_rows, inv_shift_rows}

-- `inv_sbox` leads from the entries of a table back to their places, numbered from `i` on.
leads_back : List ℕ → ℕ → Bool
leads_back [] i = true
leads_back (s ∷ table) i = (get_or inv_sbox s 0 == i) && leads_back table (suc i)

leads_back_lem :
    (table : List ℕ) (i place : ℕ)
    → leads_back table i ≡ true
    → place < length table
    → get_or inv_sbox (get_or table place 0) 0 ≡ place + i
unfolding leads_back
leads_back_lem [] i place h inside = absurd (omega arith)
leads_back_lem (s ∷ table) i zero h inside = ground arith
leads_back_lem (s ∷ table) i (suc place) h inside =
    ground (arith, leads_back_lem table (suc i) place)

sbox-leads_back : leads_back sbox 0 ≡ true
unfolding leads_back
sbox-leads_back = refl

sbox_inverse : (x : ℕ) → x < 256 → get_or inv_sbox (get_or sbox x 0) 0 ≡ x
sbox_inverse x h = omega (arith, leads_back_lem sbox 0 x sbox-leads_back h)

-- The two substitution tables are inverse to one another: on any bytes, the substitution of
-- decryption undoes that of encryption.
pub inv_sub_bytes-sub_bytes : (b : Block) → All IsByte b → inv_sub_bytes (sub_bytes b) ≡ b
unfolding inv_sub_bytes sub_bytes
inv_sub_bytes-sub_bytes [] h = refl
inv_sub_bytes-sub_bytes (x ∷ b) h = ap₂ ◌∷◌ (sbox_inverse x h.0) (inv_sub_bytes-sub_bytes b h.1)

-- What "Inverse ShiftRows" makes of a block that ShiftRows was applied to: rows 0 and 2 are back,
-- rows 1 and 3 are rotated by two places.
pub inv_shift_rows-shift_rows :
    (a0 a1 a2 a3 b0 b1 b2 b3 c0 c1 c2 c3 d0 d1 d2 d3 : ℕ)
    → inv_shift_rows (
        shift_rows
          (a0 ∷ a1 ∷ a2 ∷ a3 ∷ b0 ∷ b1 ∷ b2 ∷ b3 ∷ c0 ∷ c1 ∷ c2 ∷ c3 ∷ d0 ∷ d1 ∷ d2 ∷ d3 ∷ []))
      ≡ a0 ∷ a1 ∷ a2 ∷ a3 ∷ b2 ∷ b3 ∷ b0 ∷ b1 ∷ c0 ∷ c1 ∷ c2 ∷ c3 ∷ d2 ∷ d3 ∷ d0 ∷ d1 ∷ []
unfolding inv_shift_rows shift_rows
inv_shift_rows-shift_rows a0 a1 a2 a3 b0 b1 b2 b3 c0 c1 c2 c3 d0 d1 d2 d3 = refl
