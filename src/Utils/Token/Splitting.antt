-- ===== src/Utils/Token/Splitting.antt =====
-- `containsToken` (src/networking/Utils.h) and the list of the elements between commas.
use pulse_net.Base.{
  ℕ, zero, suc, ◌+◌, ◌-◌, ◌<◌, ◌≤◌, Bool, true, false, not, ◌≡◌, refl, sym, ap, ◌∙◌, List, [], ◌∷◌,
  length, take, drop, drop-drop, ltb, ◌==◌, if◌then◌else◌, arith, Bool-cases, inl, inr,
  ltb_false→le, ltb→lt,
}
use pulse_net.Base.Bytes.{Bytes, Lacks, byte_at, equal}
use pulse_net.Utils.Token.{is_blank, span, skip_while, element_is, contains_from, contains_token}
use pulse_net.Utils.Token.Fuel.{skip_while_ge}
use pulse_net.Utils.Token.Trimming.{trim_right, element_is-trim_right}

-- The elements between commas, without the blanks round them.
abbrev pub push_char : ℕ → List Bytes → List Bytes
push_char c [] = (c ∷ []) ∷ []
push_char c (w ∷ more) = (c ∷ w) ∷ more

abbrev pub split : Bytes → List Bytes
split [] = [] ∷ []
split (c ∷ w) = let rest = split w in if c == b',' then [] ∷ rest else push_char c rest

abbrev pub trim_left : Bytes → Bytes
trim_left [] = []
trim_left (c ∷ w) = let rest = trim_left w in if is_blank c then rest else c ∷ w

-- One of the elements is the token.
abbrev pub has : Bytes → List Bytes → Bool
has token [] = false
has token (w ∷ more) =
    let rest = has token more in if equal (trim_right (trim_left w)) token then true else rest

abbrev not_comma : ℕ → Bool
not_comma c = not (c == b',')

-- The first element, and the elements behind the comma that ends it.
abbrev behind : Bytes → Bytes → List Bytes
behind [] w = w ∷ []
behind (c ∷ more) w = w ∷ split more

push_char-behind : (c : ℕ) (d w : Bytes) → push_char c (behind d w) ≡ behind d (c ∷ w)
push_char-behind c [] w = refl
push_char-behind c (x ∷ d) w = refl

split-span : (r : Bytes) → split r ≡ behind (drop (span not_comma r) r) (take (span not_comma r) r)
unfolding span
split-span [] = refl
split-span (c ∷ w) = elim (Bool-cases (c == b',')) [
  | inl e ↦ rw e refl
  | inr e ↦ rw e (
      ap (push_char c) (split-span w)
      ∙ push_char-behind c (drop (span not_comma w) w) (take (span not_comma w) w))
]

blank_no_comma : (c : ℕ) → is_blank c ≡ true → (c == b',') ≡ false
blank_no_comma c e = ground arith

span-blank :
    (r : Bytes) → span not_comma r ≡ span is_blank r + span not_comma (drop (span is_blank r) r)
unfolding span
span-blank [] = omega arith
span-blank (c ∷ w) = elim (Bool-cases (is_blank c)) [
  | inl e ↦ rw (e, blank_no_comma c e) (omega (arith, span-blank w))
  | inr e ↦ rw e (omega arith)
]

span-le : (p : ℕ → Bool) (r : Bytes) → span p r ≤ length r
unfolding span
span-le p [] = omega arith
span-le p (c ∷ w) = ground (arith, span-le p w)

take-nil : (n : ℕ) → take {A = ℕ} n [] ≡ []
take-nil zero = refl
take-nil (suc n) = refl

trim_left-solid :
    (c : ℕ) (w : Bytes) (n : ℕ) → is_blank c ≡ false → trim_left (take n (c ∷ w)) ≡ take n (c ∷ w)
trim_left-solid c w zero e = refl
trim_left-solid c w (suc n) e = rw e refl

trim_left-take :
    (r : Bytes) (n : ℕ)
    → trim_left (take (span is_blank r + n) r) ≡ take n (drop (span is_blank r) r)
unfolding span
trim_left-take [] n = ap trim_left (take-nil (0 + n)) ∙ sym (take-nil n)
trim_left-take (c ∷ w) n = elim (Bool-cases (is_blank c)) [
  | inl e ↦
      let next : suc (span is_blank w) + n ≡ suc (span is_blank w + n) = omega arith in
      rw (e, next) (rw e (trim_left-take w n))
  | inr e ↦ let same : 0 + n ≡ n = omega arith in rw (e, same) (trim_left-solid c w n e)
]

-- What the loop does behind a comma.
abbrev has_behind : Bytes → Bytes → Bool
has_behind token [] = false
has_behind token (c ∷ more) = has token (split more)

has-behind :
    (token d w : Bytes)
    → has token (behind d w)
      ≡ (if equal (trim_right (trim_left w)) token then true else has_behind token d)
has-behind token [] w = refl
has-behind token (c ∷ d) w = refl

no_empty : (token : Bytes) → 0 < length token → equal [] token ≡ false
unfolding equal
no_empty [] h = absurd (omega arith)
no_empty (t ∷ token) h = refl

has-nothing : (token : Bytes) → 0 < length token → has token (split []) ≡ false
has-nothing token h = rw (no_empty token h) refl

byte_at-Lacks : (value : Bytes) (k : ℕ) → Lacks b'"' value → (byte_at value k == b'"') ≡ false
byte_at-Lacks [] k q = refl
byte_at-Lacks (c ∷ value) zero q = q.0
byte_at-Lacks (c ∷ value) (suc k) q = byte_at-Lacks value k q.1

-- The elements behind the comma at a place.
has_behind-drop :
    (value token d : Bytes) (k : ℕ)
    → 0 < length token
    → drop k value ≡ d
    → has token (split (drop (k + 1) value)) ≡ has_behind token d
has_behind-drop value token [] k h e =
    let over : drop (k + 1) value ≡ [] = sym (drop-drop k 1 value) ∙ ap (drop 1) e in
    ap (λ (x : Bytes). has token (split x)) over ∙ has-nothing token h
has_behind-drop value token (c ∷ more) k h e =
    let over : drop (k + 1) value ≡ more = sym (drop-drop k 1 value) ∙ ap (drop 1) e in
    ap (λ (x : Bytes). has token (split x)) over

drop_outside : (i : ℕ) (w : Bytes) → length w ≤ i → drop i w ≡ []
drop_outside zero [] h = refl
drop_outside zero (c ∷ w) h = absurd (omega (arith, h))
drop_outside (suc i) [] h = refl
drop_outside (suc i) (c ∷ w) h = drop_outside i w (omega (arith, h))

-- A round of the loop on a value without quotes, from the place `i` on.
has-round :
    (value token : Bytes) (i : ℕ)
    → 0 < length token
    → (if element_is value token
          (skip_while is_blank value i)
          (skip_while not_comma value (skip_while is_blank value i))
        then true
        else has token
            (split (drop (skip_while not_comma value (skip_while is_blank value i) + 1) value)))
      ≡ has token (split (drop i value))
unfolding skip_while
has-round value token i h =
    let r = drop i value in
    let b = span is_blank r in
    let start = i + b in
    let f = drop start value in
    let n = span not_comma f in
    let rest : drop b r ≡ f = drop-drop i b value in
    let run : span not_comma r ≡ b + n =
      span-blank r ∙ ap (λ (x : Bytes). b + span not_comma x) rest in
    let element : element_is value token start (start + n) ≡ equal (trim_right (take n f)) token =
      element_is-trim_right value token start n h (span-le not_comma f) in
    let trimmed : trim_left (take (b + n) r) ≡ take n f = trim_left-take r n ∙ ap (take n) rest in
    let behind_it : drop (start + n) value ≡ drop (b + n) r =
      ap (λ (x : ℕ). drop x value) (sums i b n) ∙ sym (drop-drop i (b + n) value) in
    let elements : has token (split r) ≡ (
        if equal (trim_right (trim_left (take (b + n) r))) token
        then true
        else has_behind token (drop (b + n) r)) =
      ap (has token) (split-span r ∙ ap (λ (x : ℕ). behind (drop x r) (take x r)) run)
      ∙ has-behind token (drop (b + n) r) (take (b + n) r) in
    same_if element (has_behind-drop value token (drop (b + n) r) (start + n) h behind_it)
    ∙ ap
        (λ (x : Bytes).
          if equal (trim_right x) token then true else has_behind token (drop (b + n) r))
        (sym trimmed)
    ∙ sym elements
  where
    sums : (x y z : ℕ) → x + y + z ≡ x + (y + z)
    sums x y z = omega arith

    same_if : {p q x y : Bool} → p ≡ q → x ≡ y → (if p then true else x) ≡ (if q then true else y)
    same_if e f = cc

-- The loop, with as many rounds as there are bytes left and one.
contains_from-has :
    (fuel : ℕ) (value token : Bytes) (i : ℕ)
    → Lacks b'"' value
    → 0 < length token
    → length value - i < fuel
    → contains_from fuel value token i ≡ has token (split (drop i value))
unfolding contains_from
contains_from-has zero value token i q h k = absurd (omega arith)
contains_from-has (suc fuel) value token i q h k = elim (Bool-cases (ltb i (length value))) [
  | inr out ↦
      let nothing : drop i value ≡ [] = drop_outside i value (ltb_false→le _ _ out) in
      rw out (sym (ap (λ (x : Bytes). has token (split x)) nothing ∙ has-nothing token h))
  | inl more ↦
      let start = skip_while is_blank value i in
      let comma = skip_while not_comma value start in
      let on : i ≤ comma =
        omega (arith, skip_while_ge is_blank value i, skip_while_ge not_comma value start) in
      let rest =
        contains_from-has fuel value token (comma + 1) q h
          (omega (arith, on, ltb→lt _ _ more, k)) in
      rw (more, byte_at-Lacks value start q, rest) (has-round value token i h)
]

-- In a value without quotes, the token is found exactly when one of the elements between the commas,
-- without the blanks round it, is the token. The token is not empty.
pub contains_token-has :
    (value token : Bytes)
    → Lacks b'"' value
    → 0 < length token
    → contains_token value token ≡ has token (split value)
unfolding contains_token
contains_token-has value token q h =
    contains_from-has (suc (length value)) value token 0 q h (omega arith)
