-- ===== src/Http/Assembler/Numbers.antt =====
-- `parseNumber` of src/networking/http/HttpAssembler.cpp on the numbers that `std::to_string` writes.
use mathlib.Core.List.{append_assoc, append-nil}
use pulse_net.Base.{
  ℕ, zero, suc, ◌+◌, ◌-◌, ◌*◌, ◌/◌, ◌%◌, ◌<◌, ◌≤◌, Bool, true, false, ◌&&◌, ◌≡◌, refl, sym, ap, ◌∙◌,
  some, [], ◌∷◌, ◌++◌, length, ltb, leb, ◌==◌, arith, Bool-cases, inl, inr, ltb→lt, ltb_false→le,
}
use pulse_net.Base.Int.{pos}
use pulse_net.Base.Bytes.{Bytes}
use pulse_net.Utils.Chars.{
  digit_value, read_digits, int_max, in_int_range, from_chars, from_chars-read_digits, decimal,
  to_string,
}
use pulse_net.Http.Assembler.HeaderLines.{parse_number}

digit_value-digit : (d : ℕ) → d < 10 → digit_value 10 (b'0' + d) ≡ some d
unfolding digit_value
digit_value-digit d h =
    let low : leb b'0' (b'0' + d) ≡ true = ground arith in
    let high : leb (b'0' + d) b'9' ≡ true = ground arith in
    let back : b'0' + d - b'0' ≡ d = omega arith in rw (low, high, back) refl

read_digits-digit :
    (d acc : ℕ) (seen : Bool) (rest : Bytes)
    → d < 10
    → read_digits 10 seen acc ((b'0' + d) ∷ rest) ≡ read_digits 10 true (acc * 10 + d) rest
unfolding read_digits
read_digits-digit d acc seen rest h = rw (read_digits, digit_value-digit d h) refl

read_digits-decimal :
    (fuel n : ℕ) (rest : Bytes)
    → n < fuel
    → read_digits 10 false 0 (decimal fuel n ++ rest) ≡ read_digits 10 true n rest
unfolding decimal
read_digits-decimal zero n rest h = absurd (omega arith)
read_digits-decimal (suc fuel) n rest h = elim (Bool-cases (ltb n 10)) [
  | inl e ↦
      let same : 0 * 10 + n ≡ n = omega arith in
      rw e (
        read_digits-digit n 0 false rest (ltb→lt _ _ e)
        ∙ ap (λ (x : ℕ). read_digits 10 true x rest) same)
  | inr e ↦
      let large = ltb_false→le _ _ e in
      let d = n % 10 in
      let whole : n / 10 * 10 + d ≡ n = omega arith in
      rw e (
        ap (read_digits 10 false 0) (append_assoc (decimal fuel (n / 10)) ((b'0' + d) ∷ []) rest)
        ∙ read_digits-decimal fuel (n / 10) ((b'0' + d) ∷ rest) (omega (arith, h, large))
        ∙ read_digits-digit d (n / 10) true rest (omega arith)
        ∙ ap (λ (x : ℕ). read_digits 10 true x rest) whole)
]

-- A text that begins with a digit.
abbrev IsDigits : Bytes → Type 0
IsDigits w = (c : ℕ) × (rest : Bytes) × (w ≡ c ∷ rest) × (b'0' ≤ c) × (c ≤ b'9')

decimal-IsDigits : (fuel n : ℕ) → n < fuel → IsDigits (decimal fuel n)
unfolding decimal
decimal-IsDigits zero n h = absurd (omega arith)
decimal-IsDigits (suc fuel) n h = elim (Bool-cases (ltb n 10)) [
  | inl e ↦ let small = ltb→lt _ _ e in rw e (b'0' + n, [], refl, omega arith, omega (arith, small))
  | inr e ↦
      let large = ltb_false→le _ _ e in
      let (c, rest, f, low, high) = decimal-IsDigits fuel (n / 10) (omega (arith, h, large)) in
      rw e (
        c,
        rest ++ (b'0' + n % 10) ∷ [],
        ap (λ (w : Bytes). w ++ (b'0' + n % 10) ∷ []) f,
        low,
        high,
      )
]

and_false : (b d : Bool) → (b && false && d) ≡ false
and_false true d = refl
and_false false d = refl

-- A text that begins with a digit has no sign and no quote.
parse_number-cons :
    (c : ℕ) (rest : Bytes) (n : ℕ)
    → b'0' ≤ c
    → c ≤ b'9'
    → read_digits 10 false 0 (c ∷ rest) ≡ some n
    → n ≤ int_max
    → parse_number (c ∷ rest) ≡ some (pos n)
unfolding parse_number in_int_range
parse_number-cons c rest n low high digits h =
    let no_sign : (c == b'-') ≡ false = ground arith in
    let no_quote : (c == b'"') ≡ false = ground arith in
    let fits : leb n int_max ≡ true = ground arith in
    let read : from_chars 10 (c ∷ rest) ≡ some (pos n) =
      from_chars-read_digits 10 c rest n no_sign digits ∙ rw fits refl in
    rw (no_quote, and_false (ltb 2 (length (c ∷ rest))) _) read

-- A number up to the largest `int`, as `std::to_string` writes it, is read by `parseNumber` as itself.
pub parse_number-to_string : (n : ℕ) → n ≤ int_max → parse_number (to_string n) ≡ some (pos n)
unfolding to_string
parse_number-to_string n h =
    let all : read_digits 10 false 0 (decimal (n + 1) n) ≡ some n =
      ap (read_digits 10 false 0) (sym (append-nil (decimal (n + 1) n)))
      ∙ read_digits-decimal (n + 1) n [] (omega arith)
      ∙ (unfold read_digits in refl) in
    let (c, rest, e, low, high) = decimal-IsDigits (n + 1) n (omega arith) in
    ap parse_number e
    ∙ parse_number-cons c rest n low high (sym (ap (read_digits 10 false 0) e) ∙ all) h
