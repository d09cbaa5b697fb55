-- ===== src/Address/Notation.antt =====
-- The addresses that `validateAddress` of src/connection/ConnectionManager.cpp and src/ProtocolManager.cpp
-- accepts, as text: four numbers with a dot between them.
use barren_engine.Common.{
  ℕ, ◌≤◌, ◌≡◌, ◌↔◌, refl, sym, ◌∙◌, ap, true, false, none, some, List, [], ◌∷◌, ◌++◌, append_assoc,
  append-nil, Bytes, All, length, length-append, take, take-append, subst, ◌+◌, ◌==◌, ◌⊎◌, inl, inr,
  Option, Bool-cases, arith,
}
use barren_engine.Address.{
  dot, read_digits, read_sign, skip_spaces, Sign, plus, minus, tokens, stoi, is_octet,
  in_octet_range, check_tokens, validate_address,
}
use barren_engine.Address.Octets.{HasNoDot, tokens-dot, tokens_end}
use barren_engine.Address.Dots.{IsOctet, check_tokens_lem, check_tokens-IsOctet}

-- The number of a token: from 0 to 255, and a minus only before zero.
abbrev pub IsSmall : Sign × ℕ → Type 0
IsSmall (plus, n) = n ≤ 255
IsSmall (minus, n) = n ≡ 0

-- A token without a dot, at the front of which `stoi` reads such a number.
abbrev pub IsNumber : Bytes → Type 0
IsNumber token =
    HasNoDot token × ((number : Sign × ℕ) × (stoi token ≡ some number) × IsSmall number)

small :
    (o : Option (Sign × ℕ))
    → (elim o [ none ↦ false | some number ↦ in_octet_range number ]) ≡ true
    → (number : Sign × ℕ) × (o ≡ some number) × IsSmall number
small none h = absurd (ground arith)
small (some (plus, n)) h = ((plus, n), refl, ground arith)
small (some (minus, n)) h = ((minus, n), refl, ground arith)

IsOctet-cases :
    (token : Bytes)
    → IsOctet token
    → (number : Sign × ℕ) × (stoi token ≡ some number) × IsSmall number
unfolding is_octet
IsOctet-cases token h = small (stoi token) h

IsSmall-IsOctet :
    (token : Bytes) (number : Sign × ℕ) → stoi token ≡ some number → IsSmall number → IsOctet token
unfolding is_octet
IsSmall-IsOctet token (plus, n) e h = rw (is_octet, e) (ground arith)
IsSmall-IsOctet token (minus, n) e h = rw (is_octet, e) (ground arith)

-- The tokens with a dot behind each.
abbrev ended : List Bytes → Bytes
ended [] = []
ended (t ∷ ts) = t ++ (dot ∷ ended ts)

-- The input is the tokens with a dot behind each, or without the last dot.
ended-tokens :
    (token bytes : Bytes)
    → ((token ++ bytes) ++ (dot ∷ []) ≡ ended (tokens token bytes))
      ⊎ (token ++ bytes ≡ ended (tokens token bytes))
unfolding tokens
ended-tokens [] [] = inr refl
ended-tokens (t ∷ token) [] = inl (ap (λ x. t ∷ (x ++ dot ∷ [])) (append-nil token))
ended-tokens token (c ∷ cs) = elim (Bool-cases (c == dot)) [
  | inl e ↦
      let q : c ≡ dot = ground arith in
      rw (e, tokens)
        (elim (ended-tokens [] cs) [
          | inl h ↦ inl (
              append_assoc token (c ∷ cs) (dot ∷ [])
              ∙ ap (λ x. token ++ (x ∷ (cs ++ (dot ∷ [])))) q
              ∙ ap (λ x. token ++ (dot ∷ x)) h)
          | inr h ↦ inr (ap (λ x. token ++ (x ∷ cs)) q ∙ ap (λ x. token ++ (dot ∷ x)) h)
        ])
  | inr e ↦
      rw (e, tokens)
        (elim (ended-tokens (token ++ c ∷ []) cs) [
          | inl h ↦ inl (ap (λ x. x ++ (dot ∷ [])) (sym (append_assoc token (c ∷ []) cs)) ∙ h)
          | inr h ↦ inr (sym (append_assoc token (c ∷ []) cs) ∙ h)
        ])
]

HasNoDot-append :
    (token : Bytes) (c : ℕ) → HasNoDot token → (c == dot) ≡ false → HasNoDot (token ++ c ∷ [])
HasNoDot-append [] c h e = (e, tt)
HasNoDot-append (t ∷ token) c h e = (h.0, HasNoDot-append token c h.1 e)

no_dots : (token bytes : Bytes) → HasNoDot token → All HasNoDot (tokens token bytes)
unfolding tokens
no_dots [] [] h = tt
no_dots (t ∷ token) [] h = (h, tt)
no_dots token (c ∷ cs) h = elim (Bool-cases (c == dot)) [
  | inl e ↦ rw (e, tokens) (h, no_dots [] cs tt)
  | inr e ↦ rw (e, tokens) (no_dots (token ++ c ∷ []) cs (HasNoDot-append token c h e))
]

-- Four texts with a dot between each two.
abbrev pub dots : Bytes → Bytes → Bytes → Bytes → Bytes
dots a b c d = a ++ (dot ∷ (b ++ (dot ∷ (c ++ (dot ∷ d)))))

-- An address in the notation of four numbers; a last dot is allowed.
pub record Notation (address : Bytes) : Type 0 where
  pub a : Bytes
  pub b : Bytes
  pub c : Bytes
  pub d : Bytes
  pub a_lem : IsNumber a
  pub b_lem : IsNumber b
  pub c_lem : IsNumber c
  pub d_lem : IsNumber d
  pub written : (address ≡ dots a b c d) ⊎ (address ≡ dots a b c (d ++ (dot ∷ [])))

dots-append : (a b c d : Bytes) → dots a b c (d ++ (dot ∷ [])) ≡ dots a b c d ++ (dot ∷ [])
dots-append a b c d =
    ap (λ x. a ++ (dot ∷ (b ++ (dot ∷ x)))) (sym (append_assoc c (dot ∷ d) (dot ∷ [])))
    ∙ ap (λ x. a ++ (dot ∷ x)) (sym (append_assoc b (dot ∷ (c ++ (dot ∷ d))) (dot ∷ [])))
    ∙ sym (append_assoc a (dot ∷ (b ++ (dot ∷ (c ++ (dot ∷ d))))) (dot ∷ []))

without_last : (xs ys : Bytes) → xs ++ (dot ∷ []) ≡ ys ++ (dot ∷ []) → xs ≡ ys
without_last xs ys h =
    let e : length xs ≡ length ys =
      omega (arith, ap length h, length-append xs (dot ∷ []), length-append ys (dot ∷ [])) in
    sym (take-append xs (dot ∷ []))
    ∙ ap (take (length xs)) h
    ∙ subst (λ n. take n (ys ++ (dot ∷ [])) ≡ ys) (sym e) (take-append ys (dot ∷ []))

four :
    (address : Bytes) (ts : List Bytes)
    → All HasNoDot ts
    → All IsOctet ts
    → 0 + length ts ≡ 4
    → (address ++ (dot ∷ []) ≡ ended ts) ⊎ (address ≡ ended ts)
    → Notation address
four address [] n o l w = absurd (omega arith)
four address (a ∷ []) n o l w = absurd (omega arith)
four address (a ∷ b ∷ []) n o l w = absurd (omega arith)
four address (a ∷ b ∷ c ∷ []) n o l w = absurd (omega arith)
four address (a ∷ b ∷ c ∷ d ∷ e ∷ ts) n o l w = absurd (omega arith)
four address (a ∷ b ∷ c ∷ d ∷ []) n o l w = record {
  a = a;
  b = b;
  c = c;
  d = d;
  a_lem = (n.0, IsOctet-cases a o.0);
  b_lem = (n.1.0, IsOctet-cases b o.1.0);
  c_lem = (n.1.1.0, IsOctet-cases c o.1.1.0);
  d_lem = (n.1.1.1.0, IsOctet-cases d o.1.1.1.0);
  written = elim w [
    | inl e ↦ inl (without_last address (dots a b c d) (e ∙ dots-append a b c d))
    | inr e ↦ inr e
  ];
}

number-IsOctet : (token : Bytes) → IsNumber token → IsOctet token
number-IsOctet token h = IsSmall-IsOctet token h.1.0 h.1.1 h.1.2

tokens_last : (d : Bytes) → IsNumber d → tokens [] d ≡ d ∷ []
unfolding stoi read_digits read_sign skip_spaces
tokens_last [] h = absurd (ground (arith, h.1.1))
tokens_last (x ∷ d) h = tokens_end [] (x ∷ d) h.0

tokens-dots :
    (a b c d : Bytes)
    → HasNoDot a
    → HasNoDot b
    → HasNoDot c
    → tokens [] (dots a b c d) ≡ a ∷ b ∷ c ∷ tokens [] d
tokens-dots a b c d h k l =
    tokens-dot [] a _ h ∙ ap (◌∷◌ a) (tokens-dot [] b _ k ∙ ap (◌∷◌ b) (tokens-dot [] c d l))

tokens-written :
    (address : Bytes) (n : Notation address) → tokens [] address ≡ n.a ∷ n.b ∷ n.c ∷ n.d ∷ []
unfolding tokens
tokens-written address n = elim n.written [
  | inl e ↦
      ap (tokens []) e
      ∙ tokens-dots n.a n.b n.c n.d n.a_lem.0 n.b_lem.0 n.c_lem.0
      ∙ ap (λ ts. n.a ∷ n.b ∷ n.c ∷ ts) (tokens_last n.d n.d_lem)
  | inr e ↦
      ap (tokens []) e
      ∙ tokens-dots n.a n.b n.c (n.d ++ (dot ∷ [])) n.a_lem.0 n.b_lem.0 n.c_lem.0
      ∙ ap (λ ts. n.a ∷ n.b ∷ n.c ∷ ts) (tokens-dot [] n.d [] n.d_lem.0)
]

checked :
    (address : Bytes) → check_tokens 0 (tokens [] address) ≡ true → validate_address address ≡ true
unfolding validate_address tokens check_tokens
checked [] h = absurd (ground arith)
checked (c ∷ cs) h = h

-- `validateAddress` accepts exactly the addresses that are four texts with a dot between each two, and
-- perhaps one more dot at the end, where no text holds a dot and `stoi` reads at the front of each a
-- number from 0 to 255, with a minus at most before zero.
pub validate_address_iff : (address : Bytes) → (validate_address address ≡ true) ↔ Notation address
unfolding validate_address
validate_address_iff address = (
  λ h.
      let r = check_tokens_lem 0 (tokens [] address) (ground arith) in
      four address (tokens [] address) (no_dots [] address tt) r.1 r.0 (ended-tokens [] address),
  λ n. checked address (
      ap (check_tokens 0) (tokens-written address n)
      ∙ check_tokens-IsOctet 0 (n.a ∷ n.b ∷ n.c ∷ n.d ∷ []) (omega arith) (
        number-IsOctet n.a n.a_lem,
        (
          number-IsOctet n.b n.b_lem,
          (number-IsOctet n.c n.c_lem, (number-IsOctet n.d n.d_lem, tt)),
        ),
      )),
)
