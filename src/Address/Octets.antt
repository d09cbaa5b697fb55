-- ===== src/Address/Octets.antt =====
-- Lemmas on `validateAddress` of src/connection/ConnectionManager.cpp and src/ProtocolManager.cpp.
use barren_engine.Common.{
  ℕ, zero, suc, ◌+◌, ◌/◌, ◌%◌, ◌<◌, ◌≡◌, refl, ap, ◌∙◌, Bool, true, false, not, ◌&&◌, [], ◌∷◌, ◌++◌,
  append_assoc, append-nil, Bytes, All, is_empty, ltb, ◌==◌, ==_iff, arith, if◌then◌else◌,
  Bool-cases, inl, inr,
}
use barren_engine.Address.{dot, tokens, is_octet, check_tokens, validate_address}

-- The decimal digits of a number below 1000, with no leading zero.
abbrev pub decimal : ℕ → Bytes
decimal n =
    if ltb n 10
    then (n + b'0') ∷ []
    else if ltb n 100
    then (n / 10 + b'0') ∷ (n % 10 + b'0') ∷ []
    else (n / 100 + b'0') ∷ (n / 10 % 10 + b'0') ∷ (n % 10 + b'0') ∷ []

-- Four numbers in the usual notation.
abbrev pub dotted : ℕ → ℕ → ℕ → ℕ → Bytes
dotted a b c d = decimal a ++ (dot ∷ (decimal b ++ (dot ∷ (decimal c ++ (dot ∷ decimal d)))))

abbrev pub HasNoDot : Bytes → Type 0
HasNoDot bytes = All (λ c. (c == dot) ≡ false) bytes

pub tokens-dot :
    (token front rest : Bytes)
    → HasNoDot front
    → tokens token (front ++ (dot ∷ rest)) ≡ (token ++ front) ∷ tokens [] rest
unfolding tokens
tokens-dot token [] rest h = rw (append-nil token) refl
tokens-dot token (c ∷ front) rest h =
    rw (h.0, tokens)
      (tokens-dot (token ++ c ∷ []) front rest h.1
        ∙ ap (λ t. t ∷ tokens [] rest) (append_assoc token (c ∷ []) front))

pub tokens_end :
    (token front : Bytes)
    → HasNoDot front
    → tokens token front ≡ (if is_empty (token ++ front) then [] else (token ++ front) ∷ [])
unfolding tokens
tokens_end token [] h = rw (append-nil token) refl
tokens_end token (c ∷ front) h =
    rw (h.0, tokens)
      (tokens_end (token ++ c ∷ []) front h.1
        ∙ ap (λ t. if is_empty t then [] else t ∷ []) (append_assoc token (c ∷ []) front))

abbrev free_of_dots : Bytes → Bool
free_of_dots [] = true
free_of_dots (c ∷ cs) = not (c == dot) && free_of_dots cs

free_of_dots-HasNoDot : (bytes : Bytes) → free_of_dots bytes ≡ true → HasNoDot bytes
free_of_dots-HasNoDot [] h = tt
free_of_dots-HasNoDot (c ∷ cs) h = (ground arith, free_of_dots-HasNoDot cs (ground arith))

-- A number whose decimal digits are one token, and an octet.
abbrev is_printed : ℕ → Bool
is_printed n = is_octet (decimal n) && (free_of_dots (decimal n) && not (is_empty (decimal n)))

printed_to : ℕ → Bool
printed_to zero = true
printed_to (suc n) = is_printed n && printed_to n

printed_to_lem : (limit n : ℕ) → printed_to limit ≡ true → n < limit → is_printed n ≡ true
unfolding printed_to
printed_to_lem zero n h below = absurd (omega arith)
printed_to_lem (suc limit) n h below = elim (Bool-cases (n == limit)) [
  | inl same ↦ rw ((==_iff n limit).0 same) (ground arith)
  | inr other ↦ printed_to_lem limit n (ground arith) (ground arith)
]

all_printed : printed_to 256 ≡ true
unfolding printed_to is_octet
all_printed = refl

printed : (n : ℕ) → n < 256 → is_printed n ≡ true
printed n h = printed_to_lem 256 n all_printed h

decimal-HasNoDot : (n : ℕ) → n < 256 → HasNoDot (decimal n)
decimal-HasNoDot n h = let p = printed n h in free_of_dots-HasNoDot (decimal n) (ground arith)

front_tokens :
    (a b c : ℕ) (last : Bytes)
    → a < 256
    → b < 256
    → c < 256
    → tokens [] (decimal a ++ (dot ∷ (decimal b ++ (dot ∷ (decimal c ++ (dot ∷ last))))))
      ≡ decimal a ∷ decimal b ∷ decimal c ∷ tokens [] last
front_tokens a b c last ha hb hc =
    tokens-dot [] (decimal a) _ (decimal-HasNoDot a ha)
    ∙ ap (λ l. decimal a ∷ l)
        (tokens-dot [] (decimal b) _ (decimal-HasNoDot b hb)
          ∙ ap (λ l. decimal b ∷ l) (tokens-dot [] (decimal c) last (decimal-HasNoDot c hc)))

last_token : (d : ℕ) → d < 256 → tokens [] (decimal d) ≡ decimal d ∷ []
last_token d h =
    let full : is_empty (decimal d) ≡ false = (let p = printed d h in ground arith) in
    tokens_end [] (decimal d) (decimal-HasNoDot d h) ∙ rw full refl

decimal-is_octet : (n : ℕ) → n < 256 → is_octet (decimal n) ≡ true
decimal-is_octet n h = let p = printed n h in ground arith

check_four :
    (s t u v : Bytes)
    → is_octet s ≡ true
    → is_octet t ≡ true
    → is_octet u ≡ true
    → is_octet v ≡ true
    → check_tokens 0 (s ∷ t ∷ u ∷ v ∷ []) ≡ true
unfolding check_tokens
check_four s t u v hs ht hu hv = rw (hs, ht, hu, hv) refl

not_empty_front : (front rest : Bytes) → is_empty (front ++ (dot ∷ rest)) ≡ false
not_empty_front [] rest = refl
not_empty_front (c ∷ front) rest = refl

-- What comes behind the third dot decides.
accepted :
    (a b c d : ℕ) (last : Bytes)
    → a < 256
    → b < 256
    → c < 256
    → d < 256
    → tokens [] last ≡ decimal d ∷ []
    → validate_address (decimal a ++ (dot ∷ (decimal b ++ (dot ∷ (decimal c ++ (dot ∷ last))))))
      ≡ true
unfolding validate_address
accepted a b c d last ha hb hc hd e =
    let front : Bytes = decimal b ++ (dot ∷ (decimal c ++ (dot ∷ last))) in
    let split : tokens [] (decimal a ++ (dot ∷ front))
        ≡ decimal a ∷ decimal b ∷ decimal c ∷ decimal d ∷ [] =
      front_tokens a b c last ha hb hc ∙ ap (λ l. decimal a ∷ decimal b ∷ decimal c ∷ l) e in
    rw (not_empty_front (decimal a) front, split)
      (check_four (decimal a) (decimal b) (decimal c) (decimal d) (decimal-is_octet a ha)
        (decimal-is_octet b hb) (decimal-is_octet c hc) (decimal-is_octet d hd))

trailing_token : (d : ℕ) → d < 256 → tokens [] (decimal d ++ (dot ∷ [])) ≡ decimal d ∷ []
unfolding tokens
trailing_token d h = tokens-dot [] (decimal d) [] (decimal-HasNoDot d h)

trailing_dot :
    (a b c d : Bytes)
    → (a ++ (dot ∷ (b ++ (dot ∷ (c ++ (dot ∷ d)))))) ++ dot ∷ []
      ≡ a ++ (dot ∷ (b ++ (dot ∷ (c ++ (dot ∷ (d ++ (dot ∷ [])))))))
trailing_dot a b c d = simp append_assoc

-- Four numbers below 256 in the usual notation are an address, and so are they with a dot behind the
-- last one.
pub validate_address-dotted :
    (a b c d : ℕ)
    → a < 256
    → b < 256
    → c < 256
    → d < 256
    → (validate_address (dotted a b c d) ≡ true)
      × (validate_address (dotted a b c d ++ dot ∷ []) ≡ true)
validate_address-dotted a b c d ha hb hc hd = (
  accepted a b c d (decimal d) ha hb hc hd (last_token d hd),
  rw (trailing_dot (decimal a) (decimal b) (decimal c) (decimal d))
      (accepted a b c d (decimal d ++ (dot ∷ [])) ha hb hc hd (trailing_token d hd)),
)
