-- ===== src/Utils/Config/Reading.antt =====
-- `read` of src/utils/ConfigParser.cpp on what `operator<<` prints.
use mathlib.Core.List.{append_assoc, append-nil}
use pulse_net.Base.{
  ◌≡◌, refl, sym, ap, ◌∙◌, subst, true, List, [], ◌∷◌, ◌++◌, map, Bool-cases, inl, inr,
}
use pulse_net.Base.Bytes.{Bytes, Lacks, equal}
use pulse_net.Utils.Config.{
  Entries, less, assign, lines, is_entry, key_of, value_of, read_lines, read, print,
  config_key_separator,
}
use pulse_net.Utils.Config.Order.{IsBelow, IsSorted, IsAbove, assign-IsSorted, assign_last}
use pulse_net.Utils.Config.Lines.{
  AreLines, IsEntry, line_of, Lacks-append, lines-AreLines, lines-line, key_of-line, value_of-line,
  IsEntry-line,
}

-- The entries that lines can give.
abbrev pub AreEntries : Entries → Type 0
AreEntries [] = Unit {0}
AreEntries ((k, v) ∷ m) = IsEntry k v × AreEntries m

assign-AreEntries :
    (k v : Bytes) (m : Entries) → IsEntry k v → AreEntries m → AreEntries (assign k v m)
unfolding assign
assign-AreEntries k v [] e a = (e, tt)
assign-AreEntries k v ((j, w) ∷ m) e a = elim (Bool-cases (equal k j)) [
  | inl f ↦ rw f (e, a.1)
  | inr f ↦ elim (Bool-cases (less k j)) [
    | inl g ↦ rw (f, g) (e, a)
    | inr g ↦ rw (f, g) (a.0, assign-AreEntries k v m e a.1)
  ]
]

pub IsConfig : Entries → Type 0
IsConfig m = IsSorted m × AreEntries m

read_lines-IsConfig :
    (ls : List Bytes) (m : Entries) → AreLines ls → IsConfig m → IsConfig (read_lines ls m)
unfolding read_lines IsConfig
read_lines-IsConfig [] m a c = c
read_lines-IsConfig (line ∷ more) m a c = elim (Bool-cases (is_entry line)) [
  | inr e ↦ rw e (read_lines-IsConfig more m a.1 c)
  | inl e ↦ rw e (
      read_lines-IsConfig more (assign (key_of line) (value_of line) m) a.1 (
        assign-IsSorted (key_of line) (value_of line) m c.0,
        assign-AreEntries (key_of line) (value_of line) m (IsEntry-line line e a.0) c.1,
      ))
]

abbrev entry_line : Bytes × Bytes → Bytes
entry_line (k, v) = line_of k v

lines-print : (m : Entries) → AreEntries m → lines (print m) ≡ map entry_line m
unfolding print lines
lines-print [] a = refl
lines-print ((k, v) ∷ m) a =
    let (separate, key, value, starts) = a.0 in
    let clean : Lacks 10 (line_of k v) =
      Lacks-append 10 k (config_key_separator ∷ v) key (refl, value) in
    ap lines (sym (append_assoc k (config_key_separator ∷ v) (10 ∷ print m)))
    ∙ lines-line (line_of k v) (print m) clean
    ∙ ap (◌∷◌ (line_of k v)) (lines-print m a.1)

-- The entries before a key are above it in a sorted list.
IsAbove-IsSorted :
    (old : Entries) (k v : Bytes) (m : Entries) → IsSorted (old ++ (k, v) ∷ m) → IsAbove k old
IsAbove-IsSorted [] k v m s = tt
IsAbove-IsSorted ((j, w) ∷ old) k v m s = (below j old k v m s.0, IsAbove-IsSorted old k v m s.1)
  where
    below :
        (j : Bytes) (old : Entries) (k v : Bytes) (m : Entries)
        → IsBelow j (old ++ (k, v) ∷ m)
        → less j k ≡ true
    below j [] k v m b = b.0
    below j (x ∷ old) k v m b = below j old k v m b.1

read_lines-print :
    (m old : Entries)
    → IsSorted (old ++ m)
    → AreEntries m
    → read_lines (map entry_line m) old ≡ old ++ m
unfolding read_lines
read_lines-print [] old s a = sym (append-nil old)
read_lines-print ((k, v) ∷ m) old s a =
    let (separate, key, value, starts) = a.0 in
    let above = IsAbove-IsSorted old k v m s in
    let again = append_assoc old ((k, v) ∷ []) m in
    rw
      (
        read_lines,
        starts,
        key_of-line k v separate,
        value_of-line k v separate,
        assign_last k v old above,
      )
      (read_lines-print m (old ++ (k, v) ∷ []) (subst IsSorted (sym again) s) a.1 ∙ again)

-- A configuration as `read` leaves it is printed to a file that reads as the same configuration.
pub read-print : (m : Entries) → IsConfig m → read (print m) [] ≡ m
unfolding read IsConfig
read-print m c = rw (lines-print m c.1) (read_lines-print m [] c.0 c.1)

pub read-IsConfig : (file : Bytes) (m : Entries) → IsConfig m → IsConfig (read file m)
unfolding read
read-IsConfig file m c = read_lines-IsConfig (lines file) m (lines-AreLines file) c

-- Whatever a file holds, the configuration that it is read to is printed to a file that reads as the
-- same configuration.
pub read-print-read : (file : Bytes) → read (print (read file [])) [] ≡ read file []
unfolding IsConfig
read-print-read file = read-print (read file []) (read-IsConfig file [] (tt, tt))
