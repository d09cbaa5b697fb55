-- ===== src/Address.antt =====
-- `validateAddress`, which src/connection/ConnectionManager.cpp and src/ProtocolManager.cpp both define, with
-- the functions of the standard library that it calls. A character is its code.
pub mod Octets
pub mod Dots
pub mod Notation
use barren_engine.Common.{
  ℕ, suc, ◌+◌, ◌-◌, ◌*◌, ◌^◌, Bool, true, false, not, ◌&&◌, ◌||◌, Option, none, some, List, [], ◌∷◌,
  ◌++◌, Bytes, is_empty, leb, ltb, ◌==◌, if◌then◌else◌,
}

abbrev pub dot : ℕ
dot = b'.'

-- The tokens that `std::getline(iss, token, '.')` gives until it fails; `token` is what has been read of
-- the first one. Where the input ends right behind a dot, no token follows.
unfoldable pub tokens : Bytes → Bytes → List Bytes
tokens token [] = if is_empty token then [] else token ∷ []
tokens token (c ∷ cs) = elim (c == dot) [
  | true ↦ token ∷ tokens [] cs
  | false ↦ tokens (token ++ c ∷ []) cs
]

-- `std::isspace` in the "C" locale.
abbrev pub is_space : ℕ → Bool
is_space c = (leb 9 c && leb c 13) || c == 32

abbrev pub is_digit : ℕ → Bool
is_digit c = leb b'0' c && leb c b'9'

-- The number that the digits at the front stand for, after `n`; `none` where there is no digit.
unfoldable pub read_digits : Option ℕ → Bytes → Option ℕ
read_digits n [] = n
read_digits n (c ∷ cs) =
    let more = read_digits (some (elim n [ none ↦ c - b'0' | some k ↦ k * 10 + (c - b'0') ])) cs in
    if is_digit c then more else n

pub data Sign : Type 0 where
  plus minus : Sign

-- The optional sign, and the rest.
unfoldable pub read_sign : Bytes → Sign × Bytes
read_sign [] = (plus, [])
read_sign (c ∷ cs) =
    if c == b'-' then (minus, cs) else if c == b'+' then (plus, cs) else (plus, c ∷ cs)

unfoldable pub skip_spaces : Bytes → Bytes
skip_spaces [] = []
skip_spaces (c ∷ cs) = let rest = skip_spaces cs in if is_space c then rest else c ∷ cs

-- `std::stoi`: the sign and the magnitude of the number, or `none` where it throws `invalid_argument` (no
-- digit) or `out_of_range` (no `int`). Characters behind the digits are ignored.
unfoldable pub stoi : Bytes → Option (Sign × ℕ)
unfolding read_digits read_sign skip_spaces
stoi bytes =
    let (sign, rest) = read_sign (skip_spaces bytes) in
    elim (read_digits none rest) [
      | none ↦ none
      | some n ↦
          if leb n (elim sign [ plus ↦ 2 ^ 31 - 1 | minus ↦ 2 ^ 31 ]) then some (sign, n) else none
    ]

-- `num < 0 || num > 255` is false.
abbrev pub in_octet_range : Sign × ℕ → Bool
in_octet_range (plus, n) = leb n 255
in_octet_range (minus, n) = n == 0

unfoldable pub is_octet : Bytes → Bool
unfolding stoi
is_octet token = elim (stoi token) [ none ↦ false | some number ↦ in_octet_range number ]

-- The loop over the tokens.
unfoldable pub check_tokens : ℕ → List Bytes → Bool
check_tokens count [] = count == 4
check_tokens count (token ∷ rest) =
    let more = check_tokens (count + 1) rest in
    if leb 4 count then false else if is_octet token then more else false

unfoldable pub validate_address : Bytes → Bool
validate_address address = if is_empty address then false else check_tokens 0 (tokens [] address)
