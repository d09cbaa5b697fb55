-- ===== src/Common/Last.antt =====
-- The end of a log that keeps no more than a number of elements.
use Prim.Native.Nat.{ℕ, zero, suc, ◌+◌, ◌-◌, ◌≤◌, min}
use mathlib.Core.Path.{◌≡◌, refl, sym, ap, ◌∙◌}
use mathlib.Core.List.{List, [], ◌∷◌, ◌++◌}
use native.Mathlib.Omega.{arith}
use barren_engine.Common.Tests.{ltb, if◌then◌else◌, if_cases}
use barren_engine.Common.Lists.{length, drop, length-append, length-drop, drop-drop}

-- The last elements of a log, no more than `n`.
unfoldable pub last {ℓ} : {A : Type ℓ} → ℕ → List A → List A
last n xs = drop (length xs - n) xs

module _ {ℓ} {A : Type ℓ} where
  drop-append_le : (k : ℕ) (xs ys : List A) → k ≤ length xs → drop k (xs ++ ys) ≡ drop k xs ++ ys
  drop-append_le zero xs ys h = refl
  drop-append_le (suc k) [] ys h = absurd (omega arith)
  drop-append_le (suc k) (x ∷ xs) ys h = drop-append_le k xs ys (omega arith)

  pub length-last : (n : ℕ) (xs : List A) → length (last n xs) ≡ min n (length xs)
  unfolding last
  length-last n xs = let e = length-drop (length xs - n) xs in omega arith

  -- What falls out of a log stays out of it.
  pub last-append :
      (n : ℕ) (xs : List A) (x : A) → last n (last n xs ++ x ∷ []) ≡ last n (xs ++ x ∷ [])
  unfolding last
  last-append n xs x =
      let k = length xs - n in
      let e = drop-append_le k xs (x ∷ []) (omega arith) in
      let f = drop-drop (length (drop k xs ++ x ∷ []) - n) k (xs ++ x ∷ []) in
      let g : k + (length (drop k xs ++ x ∷ []) - n) ≡ length (xs ++ x ∷ []) - n =
        omega (
          arith,
          length-append (drop k xs) (x ∷ []),
          length-append xs (x ∷ []),
          length-drop k xs,
        ) in
      ap (drop (length (drop k xs ++ x ∷ []) - n)) (sym e) ∙ f ∙ ap (λ i. drop i (xs ++ x ∷ [])) g

  -- To remove the first element of a log that is one too long.
  pub last_step :
      (n : ℕ) (xs : List A)
      → length xs ≤ suc n
      → (if ltb n (length xs) then drop 1 xs else xs) ≡ last n xs
  unfolding last
  last_step n xs h =
      if_cases {A = List A} (λ ys. ys ≡ drop (length xs - n) xs) (ltb n (length xs)) _ _
        (λ e. let f : 1 ≡ length xs - n = ground arith in ap (λ i. drop i xs) f)
        (λ e. let f : 0 ≡ length xs - n = ground arith in ap (λ i. drop i xs) f)
