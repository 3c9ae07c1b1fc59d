-- ===== src/Utils/Token/Trimming.antt =====
-- One element of the value of `containsToken` (src/networking/Utils.h), without the blanks round it.
use mathlib.Core.List.{append_assoc}
use pulse_net.Base.{
  ℕ, zero, suc, ◌+◌, ◌-◌, ◌<◌, ◌≤◌, Bool, true, false, ◌&&◌, ◌≡◌, refl, sym, ap, ◌∙◌, subst,
  take-append-drop, [], ◌∷◌, ◌++◌, length, length-append, length-take, take, drop, get_or, leb,
  ◌==◌, if◌then◌else◌, arith, Bool-cases, inl, inr,
}
use pulse_net.Base.Bytes.{Bytes, byte_at, equal, equal_iff}
use pulse_net.Utils.Token.{is_blank, trim_end, token_at, element_is}

-- A char before the chars that are left, which is left out when it is a trailing blank.
abbrev pub keep : ℕ → Bytes → Bytes
keep c [] = if is_blank c then [] else c ∷ []
keep c (d ∷ rest) = c ∷ d ∷ rest

-- The trailing blanks are left out.
abbrev pub trim_right : Bytes → Bytes
trim_right [] = []
trim_right (c ∷ w) = keep c (trim_right w)

trim_right-blank : (w : Bytes) (c : ℕ) → is_blank c ≡ true → trim_right (w ++ c ∷ []) ≡ trim_right w
trim_right-blank [] c e = rw e refl
trim_right-blank (d ∷ w) c e = ap (keep d) (trim_right-blank w c e)

keep-snoc : (d : ℕ) (w : Bytes) (c : ℕ) → keep d (w ++ c ∷ []) ≡ d ∷ (w ++ c ∷ [])
keep-snoc d [] c = refl
keep-snoc d (x ∷ w) c = refl

trim_right-solid : (w : Bytes) (c : ℕ) → is_blank c ≡ false → trim_right (w ++ c ∷ []) ≡ w ++ c ∷ []
trim_right-solid [] c e = rw e refl
trim_right-solid (d ∷ w) c e = ap (keep d) (trim_right-solid w c e) ∙ keep-snoc d w c

take-snoc : (m : ℕ) (r : Bytes) → m < length r → take (suc m) r ≡ take m r ++ get_or r m 0 ∷ []
take-snoc m [] h = absurd (omega arith)
take-snoc zero (c ∷ r) h = refl
take-snoc (suc m) (c ∷ r) h = ap (◌∷◌ c) (take-snoc m r (omega arith))

get_or-drop : (s m : ℕ) (value : Bytes) → get_or value (s + m) 0 ≡ get_or (drop s value) m 0
get_or-drop zero m value = ground arith
get_or-drop (suc s) m [] = refl
get_or-drop (suc s) m (c ∷ value) =
    let e : suc s + m ≡ suc (s + m) = omega arith in rw e (get_or-drop s m value)

-- The loop from the end of an element stops behind its last char that is not blank, or before it.
pub record IsTrimmed (value w : Bytes) (start k : ℕ) : Type 0 where
  pub some_char : 0 < length (trim_right w) → trim_end value k ≡ start + length (trim_right w)
  pub no_char : length (trim_right w) ≡ 0 → trim_end value k ≤ start

trim_end-le : (value : Bytes) (k : ℕ) → trim_end value k ≤ k
unfolding trim_end
trim_end-le value zero = omega arith
trim_end-le value (suc k) = ground (arith, trim_end-le value k)

trim_end-blank :
    (value : Bytes) (k : ℕ)
    → is_blank (byte_at value k) ≡ true
    → trim_end value (suc k) ≡ trim_end value k
unfolding trim_end
trim_end-blank value k e = rw e refl

trim_end-solid :
    (value : Bytes) (k : ℕ) → is_blank (byte_at value k) ≡ false → trim_end value (suc k) ≡ suc k
unfolding trim_end
trim_end-solid value k e = rw e refl

blank-IsTrimmed :
    (value w : Bytes) (c start k : ℕ)
    → byte_at value k ≡ c
    → is_blank c ≡ true
    → IsTrimmed value w start k
    → IsTrimmed value (w ++ c ∷ []) start (suc k)
blank-IsTrimmed value w c start k at e before =
    let same = trim_right-blank w c e in
    let stays = trim_end-blank value k (ap is_blank at ∙ e) in
    record {
      some_char = λ p.
          let size = ap length same in
          omega (arith, stays, size, before.some_char (omega (arith, p, size)));
      no_char = λ p.
          let size = ap length same in
          omega (arith, stays, before.no_char (omega (arith, p, size)));
    }

solid-IsTrimmed :
    (value w : Bytes) (c start k : ℕ)
    → byte_at value k ≡ c
    → is_blank c ≡ false
    → k ≡ start + length w
    → IsTrimmed value (w ++ c ∷ []) start (suc k)
solid-IsTrimmed value w c start k at e place =
    let size = ap length (trim_right-solid w c e) in
    let more = length-append w (c ∷ []) in
    let stops = trim_end-solid value k (ap is_blank at ∙ e) in
    record {
      some_char = λ p. omega (arith, stops, size, more, place);
      no_char = λ p. absurd (omega (arith, p, size, more));
    }

pub trim_end-IsTrimmed :
    (value : Bytes) (start m : ℕ)
    → m ≤ length (drop start value)
    → IsTrimmed value (take m (drop start value)) start (start + m)
trim_end-IsTrimmed value start zero h = record {
  some_char = λ p. absurd (omega (arith, p));
  no_char = λ p. omega (arith, trim_end-le value (start + 0));
}
trim_end-IsTrimmed value start (suc m) h =
    let r = drop start value in
    let c = get_or r m 0 in
    let at : byte_at value (start + m) ≡ c = get_or-drop start m value in
    let before = trim_end-IsTrimmed value start m (omega (arith, h)) in
    let place : start + m ≡ start + length (take m r) = omega (arith, length-take m r, h) in
    let after : IsTrimmed value (take m r ++ c ∷ []) start (suc (start + m)) =
      elim (Bool-cases (is_blank c)) [
        | inl e ↦ blank-IsTrimmed value (take m r) c start (start + m) at e before
        | inr e ↦ solid-IsTrimmed value (take m r) c start (start + m) at e place
      ] in
    let next : suc (start + m) ≡ start + suc m = omega arith in
    subst (λ (x : ℕ). IsTrimmed value (take (suc m) r) start x) next
      (subst (λ (w : Bytes). IsTrimmed value w start (suc (start + m)))
        (sym (take-snoc m r (omega (arith, h)))) after)

-- The comparison of an element that is as long as the token.
token_at-equal :
    (token w more : Bytes) → length token ≡ length w → token_at token (w ++ more) ≡ equal w token
unfolding token_at equal
token_at-equal [] [] more e = refl
token_at-equal [] (c ∷ w) more e = absurd (omega (arith, e))
token_at-equal (t ∷ token) [] more e = absurd (omega (arith, e))
token_at-equal (t ∷ token) (c ∷ w) more e =
    ground (arith, token_at-equal token w more (omega (arith, e)))

equal-length : (w token : Bytes) → equal w token ≡ true → length w ≡ length token
equal-length w token e = ap length ((equal_iff w token).0 e)

-- The element begins with what is left of it.
keep-front : (c : ℕ) (w more : Bytes) → (rest : Bytes) × (c ∷ (w ++ more) ≡ keep c w ++ rest)
keep-front c [] more = elim (Bool-cases (is_blank c)) [
  | inl e ↦ (c ∷ more, rw e refl)
  | inr e ↦ (more, rw e refl)
]
keep-front c (d ∷ w) more = (more, refl)

trim_right-front : (w : Bytes) → (rest : Bytes) × (w ≡ trim_right w ++ rest)
trim_right-front [] = ([], refl)
trim_right-front (c ∷ w) =
    let (more, e) = trim_right-front w in
    let (rest, f) = keep-front c (trim_right w) more in (rest, ap (◌∷◌ c) e ∙ f)

no_length :
    (size expected start stop : ℕ)
    → 0 < expected
    → (0 < size → stop ≡ start + size)
    → (size ≡ 0 → stop ≤ start)
    → (size == expected) ≡ false
    → (stop - start == expected) ≡ false
no_length zero expected start stop h long short e =
    let none : stop - start ≡ 0 = omega (arith, short refl) in rw none (ground arith)
no_length (suc n) expected start stop h long short e =
    let all : stop - start ≡ suc n = omega (arith, long (omega arith)) in rw all e

equal-false : (w token : Bytes) → (length w == length token) ≡ false → equal w token ≡ false
equal-false w token e = elim (Bool-cases (equal w token)) [
  | inr f ↦ f
  | inl f ↦ absurd (differ (length w) (length token) (equal-length w token f) e)
]
  where
    differ : (m n : ℕ) → m ≡ n → (m == n) ≡ false → ⊥
    differ m n f g = ground arith

-- The test of `containsToken` on an element that is trimmed to `w`, at the places of the loop.
test-equal :
    (token w rest : Bytes) (start stop : ℕ)
    → 0 < length token
    → (0 < length w → stop ≡ start + length w)
    → (length w ≡ 0 → stop ≤ start)
    → (leb start stop && (stop - start == length token) && token_at token (w ++ rest))
      ≡ equal w token
test-equal token w rest start stop h long short = elim (Bool-cases (length w == length token)) [
  | inl e ↦
      let same : length w ≡ length token = ground arith in
      let at = long (omega (arith, h, same)) in
      let whole : stop - start ≡ length token = omega (arith, at, same) in
      let inside : leb start stop ≡ true = ground arith in
      rw (inside, whole, token_at-equal token w rest (sym same)) (same_test (length token) _)
  | inr e ↦
      rw (equal-false w token e, no_length (length w) (length token) start stop h long short e)
        (and_false (leb start stop) _)
]
  where
    same_test : (n : ℕ) (b : Bool) → ((n == n) && b) ≡ b
    same_test n b = ground arith

    and_false : (b c : Bool) → (b && false && c) ≡ false
    and_false true c = refl
    and_false false c = refl

-- The test of an element that begins with no blank: it is the token, without its trailing blanks.
pub element_is-trim_right :
    (value token : Bytes) (start m : ℕ)
    → 0 < length token
    → m ≤ length (drop start value)
    → element_is value token start (start + m)
      ≡ equal (trim_right (take m (drop start value))) token
unfolding element_is
element_is-trim_right value token start m some_token h =
    let r = drop start value in
    let w = take m r in
    let n = trim_end-IsTrimmed value start m h in
    let (rest, front) = trim_right-front w in
    let whole : r ≡ trim_right w ++ (rest ++ drop m r) =
      sym (take-append-drop m r)
      ∙ ap (λ (x : Bytes). x ++ drop m r) front
      ∙ append_assoc (trim_right w) rest (drop m r) in
    subst
      (λ (x : Bytes).
        (leb start (trim_end value (start + m))
          && (trim_end value (start + m) - start == length token)
          && token_at token x)
        ≡ equal (trim_right w) token)
      (sym whole)
      (test-equal token (trim_right w) (rest ++ drop m r) start (trim_end value (start + m))
        some_token n.some_char n.no_char)
