-- ===== src/Common/Floats.antt =====
-- `double`, whose arithmetic is the machine's: an instance of the interface below gives its operations. The
-- functions of the standard library that compare are here.
use Prim.Native.Nat.{ℕ}
use mathlib.Core.Path.{◌≡◌}
use mathlib.Core.Bool.{Bool, true, false}
use barren_engine.Common.Bits.{Bytes}
use barren_engine.Common.Integers.{ℤ}
use barren_engine.Common.Tests.{if◌then◌else◌}

-- `rational p q` is the literal with the value p / q; `truncate` is `static_cast<size_t>`, and `largest`
-- is `std::numeric_limits<double>::max()`; `to_string` is `std::to_string`.
pub record Doubles (D : Type 0) : Type 0 where
  pub of_nat : ℕ → D
  pub of_int : ℤ → D
  pub rational : ℕ → ℕ → D
  pub add : D → D → D
  pub subtract : D → D → D
  pub multiply : D → D → D
  pub divide : D → D → D
  pub less : D → D → Bool
  pub truncate : D → ℕ
  pub largest : D
  pub to_string : D → Bytes

-- What the order of the machine's numbers keeps with its infinities and its not-a-number too.
pub record IsOrdered {D : Type 0} (d : Doubles D) : Type 0 where
  pub asymmetric : (x y : D) → d.less x y ≡ true → d.less y x ≡ false
  pub irreflexive : (x : D) → d.less x x ≡ false
  pub zero_one : d.less (d.of_nat 0) (d.of_nat 1) ≡ true

module _ {D : Type 0} ⦃d : Doubles D⦄ where
  -- `std::max(x, y)`.
  abbrev pub max_double : D → D → D
  max_double x y = if d.less x y then y else x

  -- `std::min(x, y)`.
  abbrev pub min_double : D → D → D
  min_double x y = if d.less y x then y else x
