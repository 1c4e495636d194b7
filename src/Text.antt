-- ===== src/Text.antt =====
-- What the code uses of std::string and std::stringstream, over lists of bytes: decimal output and
-- input of unsigned numbers, and searches.
pub mod Decimal
pub mod Search
use system_security.Base.{
  ℕ, zero, suc, ◌+◌, ◌-◌, ◌*◌, ◌/◌, ◌%◌, Bool, true, false, ◌&&◌, ◌||◌, Option, none, some, List,
  [], ◌∷◌, ltb, leb, ◌==◌, if◌then◌else◌,
}

unfoldable pub is_digit : ℕ → Bool
is_digit c = leb b'0' c && leb c b'9'

-- `stream << n`: one round for each digit, so n + 1 rounds are enough.
unfoldable pub digits : ℕ → ℕ → List ℕ → List ℕ
digits zero n acc = acc
digits (suc fuel) n acc =
    let more = digits fuel (n / 10) ((48 + n % 10) ∷ acc) in
    if ltb n 10 then (48 + n) ∷ acc else more

unfoldable pub decimal : ℕ → List ℕ
unfolding digits
decimal n = digits (suc n) n []

-- The value of the digits up to the first byte that is none.
unfoldable pub read_digits : ℕ → List ℕ → ℕ
unfolding is_digit
read_digits acc [] = acc
read_digits acc (c ∷ cs) = elim (is_digit c) [
  | true ↦ read_digits (acc * 10 + (c - 48)) cs
  | false ↦ acc
]

unfoldable pub starts_with_digit : List ℕ → Bool
unfolding is_digit
starts_with_digit [] = false
starts_with_digit (c ∷ cs) = is_digit c

unfoldable pub is_space : ℕ → Bool
is_space c = c == 32 || (leb 9 c && leb c 13)

unfoldable pub skip_space : List ℕ → List ℕ
unfolding is_space
skip_space [] = []
skip_space (c ∷ cs) = elim (is_space c) [ true ↦ skip_space cs | false ↦ c ∷ cs ]

-- The digits after the sign; `none` is the failure of the stream, also by overflow.
unfoldable pub read_number : ℕ → List ℕ → Option ℕ
unfolding starts_with_digit read_digits
read_number bound cs =
    if starts_with_digit cs && ltb (read_digits 0 cs) bound then some (read_digits 0 cs) else none

abbrev pub negated : ℕ → Option ℕ → Option ℕ
negated bound none = none
negated bound (some n) = some ((bound - n) % bound)

unfoldable pub read_signed : ℕ → List ℕ → Option ℕ
unfolding read_number
read_signed bound [] = none
read_signed bound (c ∷ cs) =
    if c == b'-'
    then negated bound (read_number bound cs)
    else if c == b'+'
    then read_number bound cs
    else read_number bound (c ∷ cs)

-- `stream >> n` for an unsigned type of `bound` values
unfoldable pub read_unsigned : ℕ → List ℕ → Option ℕ
unfolding skip_space read_signed
read_unsigned bound cs = read_signed bound (skip_space cs)

-- What stands before and after the first byte c: `find`, with the two `substr`.
unfoldable pub split_first : ℕ → List ℕ → Option (List ℕ × List ℕ)
split_first c [] = none
split_first c (x ∷ xs) =
    if x == c
    then some ([], xs)
    else elim (split_first c xs) [ none ↦ none | some (before, after) ↦ some (x ∷ before, after) ]

-- What stands after the last byte c: `find_last_of`, with `substr`.
unfoldable pub after_last : ℕ → List ℕ → Option (List ℕ)
after_last c [] = none
after_last c (x ∷ xs) = elim (after_last c xs) [
  | some rest ↦ some rest
  | none ↦ if x == c then some xs else none
]

unfoldable pub strip_prefix : List ℕ → List ℕ → Option (List ℕ)
strip_prefix [] xs = some xs
strip_prefix (p ∷ ps) [] = none
strip_prefix (p ∷ ps) (x ∷ xs) = let rest = strip_prefix ps xs in if p == x then rest else none

-- What stands before and after the last occurrence of a text: `rfind`, with the two `substr`.
unfoldable pub split_last : List ℕ → List ℕ → Option (List ℕ × List ℕ)
unfolding strip_prefix
split_last pat [] = none
split_last pat (x ∷ xs) = elim (split_last pat xs) [
  | some (before, after) ↦ some (x ∷ before, after)
  | none ↦ elim (strip_prefix pat (x ∷ xs)) [ none ↦ none | some rest ↦ some ([], rest) ]
]

-- operator== of std::string
unfoldable pub text_eq : List ℕ → List ℕ → Bool
text_eq [] [] = true
text_eq [] (y ∷ ys) = false
text_eq (x ∷ xs) [] = false
text_eq (x ∷ xs) (y ∷ ys) = x == y && text_eq xs ys
