-- ===== src/Common/Bits.antt =====
-- Bytes, and the laws of `^` (`bit_xor`) that the libraries do not have.
use Prim.Native.Nat.{
  ℕ, zero, suc, ◌+◌, ◌*◌, ◌/◌, ◌%◌, ◌^◌, ◌≤◌, ◌<◌, bit_xor, digits, differ, bit_xor-bitwise,
}
use mathlib.Core.Path.{◌≡◌, refl, sym, ◌∙◌}
use mathlib.Core.Logic.{◌⊎◌, inl, inr}
use mathlib.Core.List.{List}
use mathlib.Core.WellFounded.{Acc, WellFounded, induction}
use native.Mathlib.Nat.{pow-suc}
use native.Mathlib.Omega.{arith}

-- `std::vector<uint8_t>` and the code units of a `std::string`.
abbrev pub Bytes : Type 0
Bytes = List ℕ

abbrev pub IsByte : ℕ → Type 0
IsByte b = b < 256

Acc-below : (k n : ℕ) → n < k → Acc ◌<◌ n
Acc-below zero n h = elim h [ ]
Acc-below (suc k) n h = Acc.intro n (λ m hm. Acc-below k m (omega arith))

pub lt_wf : WellFounded ◌<◌
lt_wf = record { apply = λ n. Acc-below (suc n) n (omega arith) }

digits_unchanged : (n b : ℕ) → digits (λ y. y) differ n 0 b ≡ b
digits_unchanged zero b = refl
digits_unchanged (suc n) b = refl

-- Any number of turns that `a` does not exceed is enough.
turns_enough :
    (a b n m : ℕ) → a ≤ n → a ≤ m → digits (λ y. y) differ n a b ≡ digits (λ y. y) differ m a b
turns_enough zero b n m p q = digits_unchanged n b ∙ sym (digits_unchanged m b)
turns_enough (suc a) b (suc n) (suc m) p q =
    rw (turns_enough (suc a / 2) (b / 2) n m (omega arith) (omega arith))
turns_enough (suc a) b zero m p q = absurd (omega arith)
turns_enough (suc a) b (suc n) zero p q = absurd (omega arith)

zero-bit_xor : (b : ℕ) → bit_xor 0 b ≡ b
zero-bit_xor b = bit_xor-bitwise 0 b

differ-suc :
    (a b : ℕ) → bit_xor (suc a) b ≡ bit_xor (suc a / 2) (b / 2) * 2 + differ (suc a % 2) (b % 2)
differ-suc a b = omega (
  arith,
  bit_xor-bitwise (suc a) b,
  bit_xor-bitwise (suc a / 2) (b / 2),
  turns_enough (suc a / 2) (b / 2) a (suc a / 2) (omega arith) (omega arith),
)

-- The lowest digit of a `^`.
bit_xor_step : (a b : ℕ) → bit_xor a b ≡ bit_xor (a / 2) (b / 2) * 2 + differ (a % 2) (b % 2)
bit_xor_step zero b = omega (arith, zero-bit_xor b, zero-bit_xor (b / 2))
bit_xor_step (suc a) b = differ-suc a b

differ-lt : (a b : ℕ) → a < 2 → b < 2 → differ a b < 2
differ-lt zero b h k = k
differ-lt (suc a) zero h k = h
differ-lt (suc zero) (suc zero) h k = omega arith
differ-lt (suc zero) (suc (suc b)) h k = absurd (omega arith)
differ-lt (suc (suc a)) (suc b) h k = absurd (omega arith)

differ-cases : (a : ℕ) → a < 2 → (a ≡ 0) ⊎ (a ≡ 1)
differ-cases zero h = inl refl
differ-cases (suc zero) h = inr refl
differ-cases (suc (suc a)) h = absurd (omega arith)

differ_assoc : (a b c : ℕ) → a < 2 → b < 2 → c < 2 → differ (differ a b) c ≡ differ a (differ b c)
differ_assoc a b c h k l = ground (arith, differ-cases a h, differ-cases b k, differ-cases c l)

differ_comm : (a b : ℕ) → differ a b ≡ differ b a
differ_comm zero zero = refl
differ_comm zero (suc b) = refl
differ_comm (suc a) zero = refl
differ_comm (suc a) (suc b) = differ_comm a b

differ_self : (a : ℕ) → differ a a ≡ 0
differ_self zero = refl
differ_self (suc a) = differ_self a

bit_xor_half : (a b : ℕ) → bit_xor a b / 2 ≡ bit_xor (a / 2) (b / 2)
bit_xor_half a b =
    omega (arith, bit_xor_step a b, differ-lt (a % 2) (b % 2) (omega arith) (omega arith))

bit_xor_low : (a b : ℕ) → bit_xor a b % 2 ≡ differ (a % 2) (b % 2)
bit_xor_low a b =
    omega (arith, bit_xor_step a b, differ-lt (a % 2) (b % 2) (omega arith) (omega arith))

pub bit_xor_self : (a : ℕ) → bit_xor a a ≡ 0
bit_xor_self a = induction lt_wf {C = λ n. bit_xor n n ≡ 0} a step
  where
    step : (n : ℕ) → ((m : ℕ) → m < n → bit_xor m m ≡ 0) → bit_xor n n ≡ 0
    step zero ih = refl
    step (suc n) ih =
        omega (
          arith,
          bit_xor_step (suc n) (suc n),
          differ_self (suc n % 2),
          ih (suc n / 2) (omega arith),
        )

bit_xor-zero : (a : ℕ) → bit_xor a 0 ≡ a
bit_xor-zero a = induction lt_wf {C = λ n. bit_xor n 0 ≡ n} a step
  where
    step : (n : ℕ) → ((m : ℕ) → m < n → bit_xor m 0 ≡ m) → bit_xor n 0 ≡ n
    step zero ih = refl
    step (suc n) ih =
        omega
          (arith, bit_xor_step (suc n) 0, differ_comm (suc n % 2) 0, ih (suc n / 2) (omega arith))

bit_xor_assoc_step :
    (a b c : ℕ)
    → bit_xor (bit_xor (a / 2) (b / 2)) (c / 2) ≡ bit_xor (a / 2) (bit_xor (b / 2) (c / 2))
    → bit_xor (bit_xor a b) c ≡ bit_xor a (bit_xor b c)
bit_xor_assoc_step a b c h =
    rw (bit_xor_step (bit_xor a b) c, bit_xor_step a (bit_xor b c))
      (rw (bit_xor_half a b, bit_xor_half b c, bit_xor_low a b, bit_xor_low b c)
        (rw (h, differ_assoc (a % 2) (b % 2) (c % 2) (omega arith) (omega arith) (omega arith))))

pub bit_xor_assoc : (a b c : ℕ) → bit_xor (bit_xor a b) c ≡ bit_xor a (bit_xor b c)
bit_xor_assoc a =
    induction lt_wf {C = λ n. (b c : ℕ) → bit_xor (bit_xor n b) c ≡ bit_xor n (bit_xor b c)} a step
  where
    step :
        (n : ℕ)
        → ((m : ℕ) → m < n → (b c : ℕ) → bit_xor (bit_xor m b) c ≡ bit_xor m (bit_xor b c))
        → (b c : ℕ) → bit_xor (bit_xor n b) c ≡ bit_xor n (bit_xor b c)
    step zero ih b c = rw (zero-bit_xor b, zero-bit_xor (bit_xor b c))
    step (suc n) ih b c =
        bit_xor_assoc_step (suc n) b c (ih (suc n / 2) (omega arith) (b / 2) (c / 2))

-- `x ^ y ^ y` is `x`.
pub bit_xor_cancel : (a b : ℕ) → bit_xor (bit_xor a b) b ≡ a
bit_xor_cancel a b = rw (bit_xor_assoc a b b, bit_xor_self b) (bit_xor-zero a)

pub bit_xor_cancel_left : (a b : ℕ) → bit_xor a (bit_xor a b) ≡ b
bit_xor_cancel_left a b = rw (← bit_xor_assoc a a b, bit_xor_self a) (zero-bit_xor b)

pub bit_xor-lt : (k a b : ℕ) → a < 2 ^ k → b < 2 ^ k → bit_xor a b < 2 ^ k
bit_xor-lt zero a b h l = ground (arith, bit_xor-zero a)
bit_xor-lt (suc k) a b h l = omega (
  arith,
  pow-suc 2 k,
  bit_xor_step a b,
  differ-lt (a % 2) (b % 2) (omega arith) (omega arith),
  bit_xor-lt k (a / 2) (b / 2) (omega (arith, pow-suc 2 k)) (omega (arith, pow-suc 2 k)),
)
