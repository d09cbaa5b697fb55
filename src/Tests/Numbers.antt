-- ===== src/Tests/Numbers.antt =====
-- Whole numbers in place of the doubles of the machine.
use barren_engine.Common.{
  ℕ, ◌+◌, ◌-◌, ◌*◌, ◌/◌, ◌^◌, refl, [], ltb, arith, ℤ, pos, negsuc, Doubles, IsOrdered,
}

abbrev magnitude : ℤ → ℕ
magnitude (pos n) = n
magnitude (negsuc n) = 0

instance abbrev pub whole : Doubles ℕ
whole = record {
  of_nat = λ n. n;
  of_int = magnitude;
  rational = λ p q. p / q;
  add = λ a b. a + b;
  subtract = λ a b. a - b;
  multiply = λ a b. a * b;
  divide = λ a b. a / b;
  less = ltb;
  truncate = λ n. n;
  largest = 2 ^ 64;
  to_string = λ n. [];
}

pub whole-IsOrdered : IsOrdered whole
whole-IsOrdered = record {
  asymmetric = λ x y e. ground arith;
  irreflexive = λ x. ground arith;
  zero_one = refl;
}
