-- ===== src/Utils/Chars.antt =====
-- src/networking/Utils.h: `toLowerAscii` and `parseHexadecimal`; `std::from_chars` and
-- `std::to_string` are the standard library's, written out for `int`.
use pulse_net.Base.{
  ℕ, zero, suc, ◌+◌, ◌-◌, ◌*◌, ◌/◌, ◌%◌, Bool, true, false, ◌&&◌, [], ◌∷◌, ◌++◌, map, Option, none,
  some, ltb, leb, ◌==◌, if◌then◌else◌, ◌≡◌, refl,
}
use pulse_net.Base.Int.{ℤ, pos, sub_ℕ}
use pulse_net.Base.Bytes.{Bytes}

unfoldable pub lower : ℕ → ℕ
lower c = if leb b'A' c && leb c b'Z' then c + 32 else c

unfoldable pub to_lower_ascii : Bytes → Bytes
to_lower_ascii = map lower

-- `isdigit` in the "C" locale.
abbrev pub is_digit : ℕ → Bool
is_digit c = leb b'0' c && leb c b'9'

-- The value of a digit in base 10 or 16, as `std::from_chars` reads it.
unfoldable pub digit_value : ℕ → ℕ → Option ℕ
digit_value base c =
    if leb b'0' c && leb c b'9'
    then some (c - b'0')
    else if base == 16 && leb b'a' c && leb c b'f'
    then some (c - b'a' + 10)
    else if base == 16 && leb b'A' c && leb c b'F'
    then some (c - b'A' + 10)
    else none

-- The longest prefix of digits: `seen` says that one digit was read, and `acc` is their value.
unfoldable pub read_digits : ℕ → Bool → ℕ → Bytes → Option ℕ
read_digits base seen acc [] = if seen then some acc else none
read_digits base seen acc (c ∷ cs) = elim (digit_value base c) [
  | none ↦ if seen then some acc else none
  | some d ↦ read_digits base true (acc * base + d) cs
]

abbrev pub int_max : ℕ
int_max = 2147483647

-- `none` for `std::errc::invalid_argument` and `std::errc::result_out_of_range`.
unfoldable pub in_int_range : Bool → ℕ → Option ℤ
in_int_range negative n =
    if negative
    then if leb n (int_max + 1) then some (sub_ℕ 0 n) else none
    else if leb n int_max
    then some (pos n)
    else none

signed_from_chars : ℕ → Bool → Bytes → Option ℤ
signed_from_chars base negative cs = elim (read_digits base false 0 cs) [
  | none ↦ none
  | some n ↦ in_int_range negative n
]

-- `std::from_chars(first, last, result, base)`: what follows the number is not looked at.
unfoldable pub from_chars : ℕ → Bytes → Option ℤ
unfolding signed_from_chars
from_chars base [] = none
from_chars base (c ∷ cs) =
    if c == b'-' then signed_from_chars base true cs else signed_from_chars base false (c ∷ cs)

-- A text that begins with no sign.
pub from_chars-read_digits :
    (base c : ℕ) (cs : Bytes) (n : ℕ)
    → (c == b'-') ≡ false
    → read_digits base false 0 (c ∷ cs) ≡ some n
    → from_chars base (c ∷ cs) ≡ in_int_range false n
unfolding from_chars signed_from_chars
from_chars-read_digits base c cs n e digits = rw (e, signed_from_chars, digits) refl

unfoldable pub parse_hexadecimal : Bytes → Option ℤ
unfolding from_chars
parse_hexadecimal = from_chars 16

-- `std::to_string`, on as many rounds as the number has digits or more.
unfoldable pub decimal : ℕ → ℕ → Bytes
decimal zero n = []
decimal (suc fuel) n =
    let front = decimal fuel (n / 10) in
    if ltb n 10 then (b'0' + n) ∷ [] else front ++ (b'0' + n % 10) ∷ []

unfoldable pub to_string : ℕ → Bytes
unfolding decimal
to_string n = decimal (n + 1) n
