-- ===== src/Crypto/Hash/Memory.antt =====
-- Lemmas on the words of `hash` of src/Crypto.cpp.
use barren_engine.Common.{
  ℕ, suc, ◌+◌, ◌*◌, ◌/◌, ◌%◌, ◌^◌, ◌≡◌, refl, ap₂, subst, ◌<◌, sym, ap, ◌∙◌, [], ◌∷◌, ◌++◌, Bytes,
  length, arith, take, drop, u32_mod,
}
use native.Mathlib.Nat.{pow-suc}
use barren_engine.Crypto.Hash.{store_word, hash_step, hash_word, digest_word, hash}

hash_word-append :
    (c h : ℕ) (xs ys : Bytes) → hash_word c h (xs ++ ys) ≡ hash_word c (hash_word c h xs) ys
unfolding hash_word
hash_word-append c h [] ys = refl
hash_word-append c h (x ∷ xs) ys = hash_word-append c (hash_step c h x) xs ys

-- The loop without wrapping.
exact : ℕ → ℕ → Bytes → ℕ
exact c h [] = h
exact c h (x ∷ xs) = exact c ((h + x) * c) xs

mul_wraps : (a c : ℕ) → a % u32_mod * c % u32_mod ≡ a * c % u32_mod
mul_wraps a c =
    let split : a ≡ a / u32_mod * u32_mod + a % u32_mod = omega arith in
    omega (arith, ap (λ (t : ℕ). t * c) split)

mul_congruent : (a b c : ℕ) → a % u32_mod ≡ b % u32_mod → a * c % u32_mod ≡ b * c % u32_mod
mul_congruent a b c e = sym (mul_wraps a c) ∙ ap (λ t. t * c % u32_mod) e ∙ mul_wraps b c

-- Wrapping once at the end is enough.
exact_congruent :
    (c h h' : ℕ) (xs : Bytes)
    → h % u32_mod ≡ h' % u32_mod
    → exact c h xs % u32_mod ≡ exact c h' xs % u32_mod
unfolding exact
exact_congruent c h h' [] e = e
exact_congruent c h h' (x ∷ xs) e =
    exact_congruent c ((h + x) * c) ((h' + x) * c) xs
      (mul_congruent (h + x) (h' + x) c (omega arith))

hash_step-exact : (c h x : ℕ) → hash_step c h x % u32_mod ≡ (h + x) * c % u32_mod
unfolding hash_step
hash_step-exact c h x = omega (arith, mul_wraps (h + x) c)

hash_word-exact : (c h : ℕ) (xs : Bytes) → hash_word c h xs % u32_mod ≡ exact c h xs % u32_mod
unfolding exact hash_word
hash_word-exact c h [] = refl
hash_word-exact c h (x ∷ xs) =
    hash_word-exact c (hash_step c h x) xs
    ∙ exact_congruent c (hash_step c h x) ((h + x) * c) xs (hash_step-exact c h x)

-- Two runs of the loop with the constant `m * 2`, from any values, differ by multiples of 2 to the
-- number of bytes.
exact_even :
    (m h h' u v p : ℕ) (xs : Bytes)
    → h + u * p ≡ h' + v * p
    → (u' : ℕ) × (v' : ℕ) × (exact (m * 2) h xs + u' * (p * 2 ^ length xs)
        ≡ exact (m * 2) h' xs + v' * (p * 2 ^ length xs))
unfolding exact
exact_even m h h' u v p [] e = (u, v, omega arith)
exact_even m h h' u v p (x ∷ xs) e =
    let next : (h + x) * (m * 2) + u * m * (p * 2) ≡ (h' + x) * (m * 2) + v * m * (p * 2) =
      omega (arith, ap (λ (t : ℕ). t * m) e) in
    let (u', v', r) =
      exact_even m ((h + x) * (m * 2)) ((h' + x) * (m * 2)) (u * m) (v * m) (p * 2) xs next in
    let double : p * 2 ^ suc (length xs) ≡ p * 2 * 2 ^ length xs =
      omega (arith, ap (λ (t : ℕ). p * t) (pow-suc 2 (length xs))) in
    (u', v', rw double r)

exact_forgets :
    (m h h' : ℕ) (suffix : Bytes)
    → length suffix ≡ 32
    → exact (m * 2) h suffix % u32_mod ≡ exact (m * 2) h' suffix % u32_mod
exact_forgets m h h' suffix e =
    let (u, v, r) = exact_even m h h' h' h 1 suffix (omega arith) in
    let r' : exact (m * 2) h suffix + u * (1 * u32_mod)
        ≡ exact (m * 2) h' suffix + v * (1 * u32_mod) =
      subst
        (λ n. exact (m * 2) h suffix + u * (1 * 2 ^ n) ≡ exact (m * 2) h' suffix + v * (1 * 2 ^ n))
        e r in
    omega arith

hash_word-lt : (c h : ℕ) (xs : Bytes) → h < u32_mod → hash_word c h xs < u32_mod
unfolding hash_word hash_step
hash_word-lt c h [] l = l
hash_word-lt c h (x ∷ xs) l = hash_word-lt c (hash_step c h x) xs (omega arith)

hash_word_forgets :
    (m h : ℕ) (xs ys suffix : Bytes)
    → h < u32_mod
    → length suffix ≡ 32
    → hash_word (m * 2) h (xs ++ suffix) ≡ hash_word (m * 2) h (ys ++ suffix)
hash_word_forgets m h xs ys suffix l e =
    let c = m * 2 in
    let a = hash_word c h xs in
    let b = hash_word c h ys in
    rw (hash_word-append c h xs suffix, hash_word-append c h ys suffix)
      (omega (
        arith,
        hash_word-lt c a suffix (hash_word-lt c h xs l),
        hash_word-lt c b suffix (hash_word-lt c h ys l),
        hash_word-exact c a suffix,
        hash_word-exact c b suffix,
        exact_forgets m a b suffix e,
      ))

digest_word_forgets :
    (m : ℕ) (xs ys suffix : Bytes)
    → m * 2 < u32_mod
    → length suffix ≡ 32
    → digest_word (m * 2) (xs ++ suffix) ≡ digest_word (m * 2) (ys ++ suffix)
unfolding digest_word
digest_word_forgets m xs ys suffix l e =
    ap store_word (hash_word_forgets m (m * 2) xs ys suffix l e)

words_two_three :
    (bs : Bytes)
    → take 8 (drop 8 (hash bs)) ≡ digest_word 0x3c6ef372 bs ++ digest_word 0xa54ff53a bs
unfolding hash digest_word store_word
words_two_three bs = refl

word_five : (bs : Bytes) → take 4 (drop 20 (hash bs)) ≡ digest_word 0x9b05688c bs
unfolding hash digest_word store_word
word_five bs = refl

-- Twelve of the 32 bytes of a digest, words 2, 3 and 5, depend on the last 32 bytes of the data
-- alone: two inputs that end in the same 32 bytes share them, whatever comes before.
pub hash_forgets_prefix :
    (xs ys suffix : Bytes)
    → length suffix ≡ 32
    → (take 8 (drop 8 (hash (xs ++ suffix))) ≡ take 8 (drop 8 (hash (ys ++ suffix))))
      × (take 4 (drop 20 (hash (xs ++ suffix))) ≡ take 4 (drop 20 (hash (ys ++ suffix))))
hash_forgets_prefix xs ys suffix e =
    let two = digest_word_forgets 0x1e3779b9 xs ys suffix (omega arith) e in
    let three = digest_word_forgets 0x52a7fa9d xs ys suffix (omega arith) e in
    let five = digest_word_forgets 0x4d82b446 xs ys suffix (omega arith) e in
    (
      words_two_three (xs ++ suffix) ∙ ap₂ ◌++◌ two three ∙ sym (words_two_three (ys ++ suffix)),
      word_five (xs ++ suffix) ∙ five ∙ sym (word_five (ys ++ suffix)),
    )
