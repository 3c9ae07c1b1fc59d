-- ===== src/Utils/Config/Lines.antt =====
-- A line of the file of src/utils/ConfigParser.cpp, its key and its value.
use pulse_net.Base.{
  ℕ, zero, suc, ◌-◌, ◌≤◌, ◌≡◌, refl, ap, true, false, none, some, List, [], ◌∷◌, ◌++◌, length, take,
  drop, arith, ◌==◌, length-append, take-length-append, Bool-cases, Option-cases, inl, inr,
}
use pulse_net.Base.Bytes.{Bytes, Lacks}
use pulse_net.Utils.Config.{config_key_separator, lines, find_char, key_of, value_of, is_entry}

abbrev pub AreLines : List Bytes → Type 0
AreLines [] = Unit {0}
AreLines (line ∷ more) = Lacks 10 line × AreLines more

pub Lacks-append : (d : ℕ) (w x : Bytes) → Lacks d w → Lacks d x → Lacks d (w ++ x)
Lacks-append d [] x a b = b
Lacks-append d (c ∷ w) x a b = (a.0, Lacks-append d w x a.1 b)

Lacks-take : (d n : ℕ) (w : Bytes) → Lacks d w → Lacks d (take n w)
Lacks-take d zero w a = tt
Lacks-take d (suc n) [] a = tt
Lacks-take d (suc n) (c ∷ w) a = (a.0, Lacks-take d n w a.1)

Lacks-drop : (d n : ℕ) (w : Bytes) → Lacks d w → Lacks d (drop n w)
Lacks-drop d zero w a = a
Lacks-drop d (suc n) [] a = tt
Lacks-drop d (suc n) (c ∷ w) a = Lacks-drop d n w a.1

-- No line holds a line feed.
pub lines-AreLines : (file : Bytes) → AreLines (lines file)
unfolding lines
lines-AreLines [] = tt
lines-AreLines (c ∷ rest) = elim (Bool-cases (c == 10)) [
  | inl e ↦ rw e (tt, lines-AreLines rest)
  | inr e ↦ rw e (push c (lines rest) e (lines-AreLines rest))
]
  where
    push :
        (c : ℕ) (found : List Bytes)
        → (c == 10) ≡ false
        → AreLines found
        → AreLines (elim found [ [] ↦ (c ∷ []) ∷ [] | line ∷ more ↦ (c ∷ line) ∷ more ])
    push c [] e a = ((e, tt), tt)
    push c (line ∷ more) e a = ((e, a.0), a.1)

pub lines-line : (line rest : Bytes) → Lacks 10 line → lines (line ++ 10 ∷ rest) ≡ line ∷ lines rest
unfolding lines
lines-line [] rest a = refl
lines-line (c ∷ line) rest a = rw (a.0, lines-line line rest a.1) refl

-- A line of a key and a value.
abbrev pub line_of : Bytes → Bytes → Bytes
line_of k v = k ++ config_key_separator ∷ v

find_char-separator :
    (k v : Bytes)
    → Lacks config_key_separator k
    → find_char config_key_separator (line_of k v) ≡ some (length k)
unfolding find_char
find_char-separator [] v a = refl
find_char-separator (c ∷ k) v a = rw (a.0, find_char-separator k v a.1) refl

drop_behind : (k v : Bytes) (c : ℕ) → drop (suc (length k)) (k ++ c ∷ v) ≡ v
drop_behind [] v c = refl
drop_behind (x ∷ k) v c = drop_behind k v c

take_all : (n : ℕ) (w : Bytes) → length w ≤ n → take n w ≡ w
take_all zero [] h = refl
take_all zero (c ∷ w) h = absurd (omega arith)
take_all (suc n) [] h = refl
take_all (suc n) (c ∷ w) h = ap (◌∷◌ c) (take_all n w (omega arith))

pub key_of-line : (k v : Bytes) → Lacks config_key_separator k → key_of (line_of k v) ≡ k
unfolding key_of
key_of-line k v a =
    rw (key_of, find_char-separator k v a) (take-length-append k (config_key_separator ∷ v))

pub value_of-line : (k v : Bytes) → Lacks config_key_separator k → value_of (line_of k v) ≡ v
unfolding value_of
value_of-line k v a =
    let size = length-append k (config_key_separator ∷ v) in
    rw (value_of, find_char-separator k v a, drop_behind k v config_key_separator)
      (take_all (length (line_of k v) - 1) v (omega (arith, size)))

-- A key and a value that a line can give.
abbrev pub IsEntry : Bytes → Bytes → Type 0
IsEntry k v =
    Lacks config_key_separator k × Lacks 10 k × Lacks 10 v × (is_entry (line_of k v) ≡ true)

find_char-none : (d : ℕ) (w : Bytes) → find_char d w ≡ none → Lacks d w
unfolding find_char
find_char-none d [] e = tt
find_char-none d (c ∷ w) e = ground (arith, find_char-none d w)

find_char-some : (d i : ℕ) (w : Bytes) → find_char d w ≡ some i → Lacks d (take i w)
unfolding find_char
find_char-some d i [] e = absurd cc
find_char-some d zero (c ∷ w) e = tt
find_char-some d (suc i) (c ∷ w) e = ground (arith, find_char-some d i w)

is_entry-whole : (w v : Bytes) → is_entry w ≡ true → is_entry (line_of w v) ≡ true
unfolding is_entry
is_entry-whole [] v e = refl
is_entry-whole (c ∷ w) v e = e

is_entry-take : (i : ℕ) (w v : Bytes) → is_entry w ≡ true → is_entry (line_of (take i w) v) ≡ true
unfolding is_entry
is_entry-take zero w v e = refl
is_entry-take (suc i) [] v e = refl
is_entry-take (suc i) (c ∷ w) v e = e

-- An entry line gives such a key and value.
pub IsEntry-line :
    (line : Bytes) → is_entry line ≡ true → Lacks 10 line → IsEntry (key_of line) (value_of line)
unfolding key_of value_of
IsEntry-line line e a = elim (Option-cases (find_char config_key_separator line)) [
  | inl f ↦
      rw (key_of, value_of, f)
        (
          find_char-none config_key_separator line f,
          a,
          Lacks-take 10 (length line - 1) line a,
          is_entry-whole line (take (length line - 1) line) e,
        )
  | inr (i, f) ↦
      rw (key_of, value_of, f)
        (
          find_char-some config_key_separator i line f,
          Lacks-take 10 i line a,
          Lacks-take 10 (length line - 1) (drop (suc i) line) (Lacks-drop 10 (suc i) line a),
          is_entry-take i line (take (length line - 1) (drop (suc i) line)) e,
        )
]
