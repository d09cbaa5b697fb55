-- ===== src/Crypto/Block.antt =====
-- The block cipher of src/Crypto.cpp: `encryptBlock`, `decryptBlock`, `generateRoundKey`, `xorBlocks`.
-- A `std::array<uint8_t, 16>` is a list of 16 numbers below 256.
pub mod Inverses
use barren_engine.Common.{
  ℕ, zero, suc, ◌+◌, ◌-◌, ◌*◌, ◌%◌, ◌≡◌, List, [], ◌∷◌, ◌++◌, map, Bytes, IsByte, All, bit_xor,
  length, get_or, set, take, drop, ltb, if◌then◌else◌,
}
use barren_engine.Crypto.Tables.{sbox, inv_sbox, rcon}

-- `BLOCK_SIZE`.
abbrev pub block_size : ℕ
block_size = 16

abbrev pub Block : Type 0
Block = Bytes

abbrev pub IsBlock : Block → Type 0
IsBlock b = (length b ≡ 16) × All IsByte b

-- `static_cast<uint8_t>`.
abbrev pub to_u8 : ℕ → ℕ
to_u8 n = n % 256

-- `for (i …) dest[i] ^= src[i];`
unfoldable pub xor_blocks : Block → Block → Block
xor_blocks (d ∷ dest) (s ∷ src) = bit_xor d s ∷ xor_blocks dest src
xor_blocks dest _ = dest

-- `std::rotate(begin + lo, begin + mid, begin + hi)`.
abbrev pub rotate : ℕ → ℕ → ℕ → Block → Block
rotate lo mid hi b = take lo b ++ (drop mid (take hi b) ++ (drop lo (take mid b) ++ drop hi b))

unfoldable pub sub_bytes : Block → Block
sub_bytes = map (λ byte. get_or sbox byte 0)

unfoldable pub inv_sub_bytes : Block → Block
inv_sub_bytes = map (λ byte. get_or inv_sbox byte 0)

unfoldable pub shift_rows : Block → Block
shift_rows b = rotate 12 15 16 (rotate 8 10 12 (rotate 4 5 8 b))

-- What `decryptBlock` calls "Inverse ShiftRows".
unfoldable pub inv_shift_rows : Block → Block
inv_shift_rows b = rotate 4 5 8 (rotate 8 10 12 (rotate 12 15 16 b))

infixl 45 ◌xor◌
abbrev pub ◌xor◌ : ℕ → ℕ → ℕ
a xor b = bit_xor a b

-- One turn of the loop of MixColumns, on one column. `decryptBlock` has the same body.
unfoldable pub mix_column : ℕ → ℕ → ℕ → ℕ → Block
mix_column s0 s1 s2 s3 =
    to_u8 (s0 * 2 xor s1 * 2 xor s1 xor s2 xor s3)
    ∷ to_u8 (s0 xor s1 * 2 xor s2 * 2 xor s2 xor s3)
    ∷ to_u8 (s0 xor s1 xor s2 * 2 xor s3 * 2 xor s3)
    ∷ to_u8 (s0 * 2 xor s0 xor s1 xor s2 xor s3 * 2)
    ∷ []

unfoldable pub mix_columns : Block → Block
mix_columns (s0 ∷ s1 ∷ s2 ∷ s3 ∷ rest) = mix_column s0 s1 s2 s3 ++ mix_columns rest
mix_columns b = b

-- `roundKey[i + 4] = roundKey[i] ^ roundKey[i + 4]` for the `n` indices from `i` on, in place.
unfoldable pub chain_words : ℕ → ℕ → Block → Block
chain_words zero i key = key
chain_words (suc n) i key =
    chain_words n (i + 1) (set key (i + 4) (get_or key i 0 xor get_or key (i + 4) 0))

unfoldable pub generate_round_key : Block → ℕ → Block
generate_round_key key round =
    let rotated = rotate 12 13 16 key in
    let substituted = take 12 rotated ++ map (λ byte. get_or sbox byte 0) (drop 12 rotated) in
    let first = set substituted 0 (get_or substituted 0 0 xor get_or rcon round 0) in
    chain_words 12 0 first

-- The body of the round loop of `encryptBlock`.
unfoldable pub encrypt_round : Block → ℕ → Block → Block
encrypt_round key round block =
    let shifted = shift_rows (sub_bytes block) in
    let mixed = if ltb round 9 then mix_columns shifted else shifted in
    xor_blocks mixed (generate_round_key key round)

-- The body of the round loop of `decryptBlock`.
unfoldable pub decrypt_round : Block → ℕ → Block → Block
decrypt_round key round block =
    let substituted = inv_sub_bytes (inv_shift_rows block) in
    let keyed = xor_blocks substituted (generate_round_key key round) in
    if ltb round 9 then mix_columns keyed else keyed

-- `n` rounds, numbered from `round` on.
unfoldable pub rounds : (ℕ → Block → Block) → ℕ → ℕ → Block → Block
rounds body zero round block = block
rounds body (suc n) round block = rounds body n (round + 1) (body round block)

unfoldable pub encrypt_block : Block → Block → Block
encrypt_block block key = rounds (encrypt_round key) 10 0 (xor_blocks block key)

unfoldable pub decrypt_block : Block → Block → Block
decrypt_block block key = rounds (decrypt_round key) 10 0 (xor_blocks block key)
