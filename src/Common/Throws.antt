-- ===== src/Common/Throws.antt =====
-- Functions that throw: the value, or the class of the exception (`std::invalid_argument`, ...).
use mathlib.Core.Bool.{Bool, true, false}

pub data Exception : Type 0 where
  invalid_argument runtime_error length_error : Exception

pub data Result {ℓ} (A : Type ℓ) : Type ℓ where
  ok : A → Result A
  throw : Exception → Result A

infixl 5 ◌>>=◌ ◌>>◌
abbrev pub ◌>>=◌ {ℓ κ} : {A : Type ℓ} {B : Type κ} → Result A → (A → Result B) → Result B
ok a >>= f = f a
throw e >>= f = throw e

abbrev pub ◌>>◌ {ℓ} : {B : Type ℓ} → Result (Unit {0}) → Result B → Result B
m >> k = m >>= λ _. k

-- `if (test) throw e;`
abbrev pub throw_if : Bool → Exception → Result (Unit {0})
throw_if true e = throw e
throw_if false e = ok tt

-- `try { … } catch (const std::exception&) { return d; }`
abbrev pub catch {ℓ} : {A : Type ℓ} → Result A → A → A
catch (ok a) d = a
catch (throw e) d = d
