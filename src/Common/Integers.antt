-- ===== src/Common/Integers.antt =====
-- Signed integers (`int64_t`, the count of a `std::chrono` duration).
use Prim.Native.Nat.{ℕ}
use mathlib.Core.Bool.{Bool, true, false}
use barren_engine.Common.Tests.{ltb}

-- `pos n` is n, and `negsuc n` is -(n + 1).
pub data ℤ : Type 0 where
  pos negsuc : ℕ → ℤ

abbrev pub ltb_int : ℤ → ℤ → Bool
ltb_int (pos m) (pos n) = ltb m n
ltb_int (pos m) (negsuc n) = false
ltb_int (negsuc m) (pos n) = true
ltb_int (negsuc m) (negsuc n) = ltb n m
