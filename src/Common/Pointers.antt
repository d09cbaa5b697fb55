-- ===== src/Common/Pointers.antt =====
-- Member accesses through a `std::unique_ptr`, which is an option.
use mathlib.Core.Option.{Option, none, some}

-- What an access gives: a value, or undefined behaviour where the pointer is null.
pub data Access {ℓ} (A : Type ℓ) : Type ℓ where
  reached : A → Access A
  null_pointer : Access A

abbrev pub through {ℓ κ} : {A : Type ℓ} {B : Type κ} → Option A → (A → Access B) → Access B
through none call = null_pointer
through (some object) call = call object

-- A value that is reached is passed on.
abbrev pub and_then {ℓ κ} : {A : Type ℓ} {B : Type κ} → Access A → (A → Access B) → Access B
and_then (reached a) f = f a
and_then null_pointer f = null_pointer
