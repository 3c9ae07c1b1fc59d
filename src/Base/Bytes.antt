-- ===== src/Base/Bytes.antt =====
-- Byte strings: `std::string`, `std::string_view` and `char` buffers are lists of byte values.
use Prim.Native.Char.{code}
use Prim.Native.String.{String}
use Prim.Native.Nat.{ℕ, ◌-◌}
use mathlib.Core.Path.{◌≡◌}
use mathlib.Core.Logic.{◌↔◌}
use mathlib.Core.Bool.{Bool, true, false}
use mathlib.Core.List.{List, [], ◌∷◌, ◌++◌}
use native.Mathlib.Omega.{arith}
use pulse_net.Base.Tests.{◌==◌, if◌then◌else◌}
use pulse_net.Base.Lists.{take, drop, get_or}

abbrev pub Bytes : Type 0
Bytes = List ℕ

abbrev pub concat : List Bytes → Bytes
concat [] = []
concat (x ∷ xs) = x ++ concat xs

-- The bytes of an ASCII literal.
abbrev pub codes : String → Bytes
codes String.[] = []
codes (String.◌∷◌ letter rest) = code letter ∷ codes rest

-- `operator==` of two strings.
unfoldable pub equal : Bytes → Bytes → Bool
equal [] [] = true
equal [] (d ∷ right) = false
equal (c ∷ left) [] = false
equal (c ∷ left) (d ∷ right) = let rest = equal left right in if c == d then rest else false

pub equal_iff : (left right : Bytes) → (equal left right ≡ true) ↔ (left ≡ right)
unfolding equal
equal_iff [] [] = ground arith
equal_iff [] (d ∷ right) = ground arith
equal_iff (c ∷ left) [] = ground arith
equal_iff (c ∷ left) (d ∷ right) = ground (arith, equal_iff left right)

-- `buffer[i]`; a read outside the list gives 0.
abbrev pub byte_at : Bytes → ℕ → ℕ
byte_at b i = get_or b i 0

-- `std::string_view(buffer + a, b - a)`.
abbrev pub slice : Bytes → ℕ → ℕ → Bytes
slice buf a b = take (b - a) (drop a buf)

-- The char `d` does not occur.
abbrev pub Lacks : ℕ → Bytes → Type 0
Lacks d [] = Unit {0}
Lacks d (c ∷ w) = ((c == d) ≡ false) × Lacks d w
