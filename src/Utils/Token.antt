-- ===== src/Utils/Token.antt =====
-- src/networking/Utils.h: `containsToken`. An index loop is the length of the run that it passes.
pub mod Fuel
pub mod Trimming
pub mod Splitting
use pulse_net.Base.{
  ℕ, zero, suc, ◌+◌, ◌-◌, Bool, true, false, not, ◌&&◌, ◌||◌, [], ◌∷◌, ltb, leb, ◌==◌,
  if◌then◌else◌, length, drop,
}
use pulse_net.Base.Bytes.{Bytes, byte_at}

abbrev pub is_blank : ℕ → Bool
is_blank c = c == b' ' || c == b'\t'

-- `while (i < value.size() && p(value[i])) i++`, from the rest of the value at `i`.
unfoldable pub span : (ℕ → Bool) → Bytes → ℕ
span p [] = 0
span p (c ∷ cs) = if p c then suc (span p cs) else 0

unfoldable pub skip_while : (ℕ → Bool) → Bytes → ℕ → ℕ
unfolding span
skip_while p value i = i + span p (drop i value)

-- `while (i < value.size() && value[i] != '"') { if (value[i] == '\\') i++; i++; }`
unfoldable pub quoted_span : Bytes → ℕ
quoted_span [] = 0
quoted_span (c ∷ []) = if c == b'"' then 0 else if c == b'\\' then 2 else 1
quoted_span (c ∷ d ∷ cs) =
    let escaped = 2 + quoted_span cs in
    let plain = 1 + quoted_span (d ∷ cs) in
    if c == b'"' then 0 else if c == b'\\' then escaped else plain

-- `while (i_end > 0 && blank(value[i_end - 1])) i_end--`
unfoldable pub trim_end : Bytes → ℕ → ℕ
trim_end value zero = zero
trim_end value (suc k) = if is_blank (byte_at value k) then trim_end value k else suc k

-- The inner loop over `j`: all of `token` stands at the front of the rest of the value.
unfoldable pub token_at : Bytes → Bytes → Bool
token_at [] rest = true
token_at (t ∷ ts) [] = t == 0 && token_at ts []
token_at (t ∷ ts) (c ∷ cs) = t == c && token_at ts cs

-- `i_end - i_start` is an `int` that is compared as a `size_t`, so a negative one is no length.
unfoldable pub element_is : Bytes → Bytes → ℕ → ℕ → Bool
unfolding trim_end token_at
element_is value token i_start i =
    let i_end = trim_end value i in
    leb i_start i_end && (i_end - i_start == length token) && token_at token (drop i_start value)

-- The `while (!found && i < value.size())` loop.
unfoldable pub contains_from : ℕ → Bytes → Bytes → ℕ → Bool
unfolding skip_while quoted_span element_is
contains_from zero value token i = false
contains_from (suc fuel) value token i =
    let start = skip_while is_blank value i in
    let close = start + 1 + quoted_span (drop (start + 1) value) in
    let comma = skip_while (λ c. not (c == b',')) value start in
    let next = skip_while is_blank value (close + 1) in
    let quoted_rest = contains_from fuel value token (next + 1) in
    let rest = contains_from fuel value token (comma + 1) in
    if not (ltb i (length value))
    then false
    else if byte_at value start == b'"'
    then if leb (length value) close
      then false
      else if element_is value token (start + 1) close
      then true
      else if ltb next (length value) && byte_at value next == b','
      then quoted_rest
      else false
    else if element_is value token start comma
    then true
    else rest

-- Every round moves `i` forward, so the length of the value bounds the rounds.
unfoldable pub contains_token : Bytes → Bytes → Bool
unfolding contains_from
contains_token value token = contains_from (suc (length value)) value token 0
