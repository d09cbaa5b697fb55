-- ===== src/Common/Mutex.antt =====
-- `std::mutex` under `std::lock_guard`, seen by one thread: the flag says that the thread holds it.
-- To lock a `std::mutex` that the thread already holds is undefined behaviour; in practice the
-- thread waits for itself for ever, which is the outcome `deadlock`.
use mathlib.Core.Bool.{Bool, true, false}

pub data Outcome {ℓ} (A : Type ℓ) : Type ℓ where
  returns : A → Outcome A
  deadlock : Outcome A

-- The body runs with the mutex held.
abbrev pub lock_guard {ℓ} : {A : Type ℓ} → Bool → (Bool → Outcome A) → Outcome A
lock_guard true body = deadlock
lock_guard false body = body true

abbrev pub outcome_map {ℓ κ} : {A : Type ℓ} {B : Type κ} → (A → B) → Outcome A → Outcome B
outcome_map f (returns a) = returns (f a)
outcome_map f deadlock = deadlock
