-- ===== src/Common/Maps.antt =====
-- `std::map` and `std::unordered_map` as association lists in the order of iteration, with keys that
-- an instance of `Eq` compares.
use Prim.Native.Nat.{ℕ}
use mathlib.Core.Path.{◌≡◌, refl}
use mathlib.Core.Bool.{Bool, true, false, ◌&&◌, ◌||◌}
use mathlib.Core.Logic.{◌↔◌}
use mathlib.Core.List.{List, [], ◌∷◌}
use mathlib.Core.Option.{Option, none, some}
use native.Mathlib.Omega.{arith}
use barren_engine.Common.Tests.{◌==◌, ==_iff, if◌then◌else◌}
use barren_engine.Common.Bits.{Bytes}
use barren_engine.Common.Lists.{All}

pub record Eq (K : Type 0) : Type 0 where
  pub beq : K → K → Bool
  pub beq_iff : (a b : K) → (beq a b ≡ true) ↔ (a ≡ b)

abbrev pub nat_beq : ℕ → ℕ → Bool
nat_beq a b = a == b

instance abbrev pub nat_eq : Eq ℕ
nat_eq = record { beq = nat_beq; beq_iff = ==_iff }

-- `==` of two vectors or strings.
unfoldable pub bytes_eq : Bytes → Bytes → Bool
bytes_eq [] [] = true
bytes_eq (x ∷ xs) (y ∷ ys) = x == y && bytes_eq xs ys
bytes_eq _ _ = false

pub bytes_eq_iff : (a b : Bytes) → (bytes_eq a b ≡ true) ↔ (a ≡ b)
unfolding bytes_eq
bytes_eq_iff [] [] = ground arith
bytes_eq_iff [] (y ∷ b) = ground arith
bytes_eq_iff (x ∷ a) [] = ground arith
bytes_eq_iff (x ∷ a) (y ∷ b) = ground (arith, bytes_eq_iff a b)

instance abbrev pub bytes_key : Eq Bytes
bytes_key = record { beq = bytes_eq; beq_iff = bytes_eq_iff }

abbrev pub contains : {K : Type 0} ⦃e : Eq K⦄ → K → List K → Bool
contains ⦃e⦄ k [] = false
contains ⦃e⦄ k (j ∷ ks) = e.beq j k || contains k ks

module _ {ℓ} {K : Type 0} {V : Type ℓ} ⦃e : Eq K⦄ where
  unfoldable pub find : K → List (K × V) → Option V
  find k [] = none
  find k ((j, v) ∷ m) = if e.beq j k then some v else find k m

  -- `m[k] = v`.
  unfoldable pub assign : K → V → List (K × V) → List (K × V)
  assign k v [] = (k, v) ∷ []
  assign k v ((j, w) ∷ m) = if e.beq j k then (j, v) ∷ m else (j, w) ∷ assign k v m

  -- `m.erase(k)`.
  unfoldable pub erase : K → List (K × V) → List (K × V)
  erase k [] = []
  erase k ((j, w) ∷ m) = let rest = erase k m in if e.beq j k then rest else (j, w) ∷ rest

  pub find-erase :
      (k j : K) (m : List (K × V)) → find j (erase k m) ≡ (if e.beq k j then none else find j m)
  unfolding find erase
  find-erase k j [] = ground arith
  find-erase k j ((i, w) ∷ m) =
      ground (arith, e.beq_iff k j, e.beq_iff i k, e.beq_iff i j, find-erase k j m)

  pub find-assign :
      (k j : K) (v : V) (m : List (K × V))
      → find j (assign k v m) ≡ (if e.beq k j then some v else find j m)
  unfolding find assign
  find-assign k j v [] = refl
  find-assign k j v ((i, w) ∷ m) =
      ground (arith, e.beq_iff k j, e.beq_iff i k, e.beq_iff i j, find-assign k j v m)

  -- A loop over keys that erases each.
  unfoldable pub erase_all : List K → List (K × V) → List (K × V)
  erase_all [] m = m
  erase_all (k ∷ ks) m = erase_all ks (erase k m)

  pub find-erase_all :
      (ks : List K) (j : K) (m : List (K × V))
      → find j (erase_all ks m) ≡ (if contains j ks then none else find j m)
  unfolding erase_all
  find-erase_all [] j m = refl
  find-erase_all (k ∷ ks) j m = ground (arith, find-erase_all ks j (erase k m), find-erase k j m)

  pub All-assign {κ} :
      (P : K × V → Type κ) (k : K) (v : V) (m : List (K × V))
      → ((j : K) → j ≡ k → P (j, v))
      → All P m
      → All P (assign k v m)
  unfolding assign
  All-assign P k v [] h a = (h k refl, tt)
  All-assign P k v ((j, w) ∷ m) h a = ground (arith, e.beq_iff j k, h j, All-assign P k v m h a.1)

  pub All-erase {κ} : (P : K × V → Type κ) (k : K) (m : List (K × V)) → All P m → All P (erase k m)
  unfolding erase
  All-erase P k [] a = a
  All-erase P k ((j, w) ∷ m) a = ground (arith, All-erase P k m a.1)
