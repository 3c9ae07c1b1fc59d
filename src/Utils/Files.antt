-- ===== src/Utils/Files.antt =====
-- The files that src/utils/ConfigParser.cpp and src/utils/Logger.cpp open: the bytes behind a path, as
-- the program sees them. What the system answers is an argument, and nothing else writes to a file.
use pulse_net.Base.{
  Bool, true, false, ◌≡◌, refl, sym, ap, ◌∙◌, inl, inr, Option, none, some, List, [], ◌∷◌,
  if◌then◌else◌, Bool-cases, arith,
}
use pulse_net.Base.Bytes.{Bytes, equal, equal_iff}

-- The two branches of `#ifdef _WIN32`, with the answer of SHGetFolderPathA, and with `getenv("HOME")`.
pub data Platform : Type 0 where
  windows : Option Bytes → Platform
  posix : Option Bytes → Platform

abbrev pub Files : Type 0
Files = List (Bytes × Bytes)

unfoldable pub file_at : Bytes → Files → Option Bytes
file_at path [] = none
file_at path ((p, content) ∷ files) = if equal path p then some content else file_at path files

unfoldable pub write_file : Bytes → Bytes → Files → Files
write_file path content [] = (path, content) ∷ []
write_file path content ((p, old) ∷ files) =
    let others = write_file path content files in
    if equal path p then (p, content) ∷ files else (p, old) ∷ others

-- What the system allows.
pub record Access : Type 0 where
  pub makes_directories : Bool
  pub readable : Bytes → Bool
  pub writable : Bytes → Bool

pub equal_refl : (w : Bytes) → equal w w ≡ true
equal_refl w = (equal_iff w w).1 refl

pub file_at-write_file :
    (q p : Bytes) (content : Bytes) (files : Files)
    → file_at q (write_file p content files) ≡ (if equal q p then some content else file_at q files)
unfolding file_at write_file
file_at-write_file q p content [] = refl
file_at-write_file q p content ((n, old) ∷ files) = elim (Bool-cases (equal p n)) [
  | inl e ↦ let same : p ≡ n = (equal_iff p n).0 e in rw e (rw (sym same) (ground arith))
  | inr e ↦
      rw (e, file_at-write_file q p content files)
        (elim (Bool-cases (equal q p)) [
          | inl here ↦
              let other : equal q n ≡ false = ap (λ w. equal w n) ((equal_iff q p).0 here) ∙ e in
              rw (here, other) refl
          | inr there ↦ rw there refl
        ])
]
