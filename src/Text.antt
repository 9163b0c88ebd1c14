-- ===== src/Text.antt =====
-- What the code uses of the C and C++ libraries on numbers as text: decimal digits and `atoi`;
-- and `stringFormat` of linux/src/logger.cpp. A text is the list of its characters.
pub mod Decimal
mod Tests
use broker_proxy.Base.{
  Option, none, some, length, ℕ, zero, suc, ◌+◌, ◌-◌, ◌*◌, ◌/◌, ◌%◌, ◌^◌, ◌≡◌, Bool, true, false,
  ◌&&◌, ◌||◌, List, [], ◌∷◌, ◌++◌, ◌==◌, leb, ltb, if◌then◌else◌,
}
use broker_proxy.Cbor.{ℤ, pos, negsuc}

-- The digits of a number in front of a text; a round for each digit.
abbrev pub digits : ℕ → ℕ → List ℕ → List ℕ
digits zero n text = text
digits (suc fuel) n text =
    let rest = digits fuel (n / 10) ((48 + n % 10) ∷ text) in
    if n / 10 == 0 then (48 + n % 10) ∷ text else rest

-- 20 digits are enough for 64 bits.
unfoldable pub decimal : ℕ → List ℕ
decimal n = digits 20 n []

unfoldable pub decimal_int : ℤ → List ℕ
decimal_int (pos n) = decimal n
decimal_int (negsuc n) = 45 ∷ decimal (suc n)

abbrev pub is_digit : ℕ → Bool
is_digit c = leb 48 c && leb c 57

-- `isspace` in the C locale
abbrev pub is_space : ℕ → Bool
is_space c = (c == 32) || (leb 9 c && leb c 13)

-- The digits in front, behind a number so far.
abbrev pub read_digits : ℕ → List ℕ → ℕ
read_digits n [] = n
read_digits n (c ∷ cs) =
    let rest = read_digits (n * 10 + (c - 48)) cs in if is_digit c then rest else n

abbrev pub negate : ℕ → ℤ
negate zero = pos 0
negate (suc n) = negsuc n

-- `atoi`; out of the range of an `int` it is undefined, and the callers keep the low 16 or 32 bits.
abbrev pub signed_number : List ℕ → ℤ
signed_number [] = pos 0
signed_number (c ∷ cs) =
    if c == 45
    then negate (read_digits 0 cs)
    else if c == 43
    then pos (read_digits 0 cs)
    else pos (read_digits 0 (c ∷ cs))

abbrev pub skip_spaces : List ℕ → List ℕ
skip_spaces [] = []
skip_spaces (c ∷ cs) = let rest = skip_spaces cs in if is_space c then rest else c ∷ cs

unfoldable pub atoi : List ℕ → ℤ
atoi s = signed_number (skip_spaces s)

-- `stringFormat`, of the length of the format and of what `vsprintf` makes of it: it writes into a
-- buffer of that size, with room for a NUL behind it, and beyond that `none` is undefined
-- behaviour. Where the text is as long as the buffer the second round has room for it.
abbrev pub formatted : ℕ → List ℕ → Option (List ℕ)
formatted format_length text =
    if leb (length text) (format_length * 2 + 50) then some text else none
