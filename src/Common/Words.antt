-- ===== src/Common/Words.antt =====
-- Unsigned machine words, and their bytes on a little-endian machine.
use Prim.Native.Nat.{ℕ, ◌+◌, ◌*◌, ◌/◌, ◌%◌, ◌^◌, ◌<◌}
use mathlib.Core.Path.{◌≡◌}
use mathlib.Core.List.{[], ◌∷◌}
use native.Mathlib.Omega.{arith}
use barren_engine.Common.Lists.{get_or}
use barren_engine.Common.Bits.{Bytes, IsByte}

abbrev pub u32_mod : ℕ
u32_mod = 2 ^ 32

abbrev pub u64_mod : ℕ
u64_mod = 2 ^ 64

-- `x + y` on `uint32_t` and on `uint64_t` (or `size_t`).
abbrev pub add_u32 : ℕ → ℕ → ℕ
add_u32 x y = (x + y) % u32_mod

abbrev pub add_u64 : ℕ → ℕ → ℕ
add_u64 x y = (x + y) % u64_mod

-- `*reinterpret_cast<const uint32_t*>(bytes.data())`.
unfoldable pub read_u32 : Bytes → ℕ
read_u32 bytes =
    get_or bytes 0 0
    + get_or bytes 1 0 * 2 ^ 8
    + get_or bytes 2 0 * 2 ^ 16
    + get_or bytes 3 0 * 2 ^ 24

-- The vector of four bytes that the same cast writes.
unfoldable pub write_u32 : ℕ → Bytes
write_u32 n = n % 256 ∷ n / 2 ^ 8 % 256 ∷ n / 2 ^ 16 % 256 ∷ n / 2 ^ 24 % 256 ∷ []

pub read_u32-write_u32 : (n : ℕ) → n < u32_mod → read_u32 (write_u32 n) ≡ n
unfolding read_u32 write_u32
read_u32-write_u32 n h = omega arith

pub read_u32-lt :
    (a b c d : ℕ) (rest : Bytes)
    → IsByte a
    → IsByte b
    → IsByte c
    → IsByte d
    → read_u32 (a ∷ b ∷ c ∷ d ∷ rest) < u32_mod
unfolding read_u32
read_u32-lt a b c d rest h k l m = omega arith

pub write_u32-read_u32 :
    (a b c d : ℕ) (rest : Bytes)
    → IsByte a
    → IsByte b
    → IsByte c
    → IsByte d
    → write_u32 (read_u32 (a ∷ b ∷ c ∷ d ∷ rest)) ≡ a ∷ b ∷ c ∷ d ∷ []
unfolding read_u32 write_u32
write_u32-read_u32 a b c d rest h k l m = ground arith
