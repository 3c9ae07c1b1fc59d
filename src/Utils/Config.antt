-- ===== src/Utils/Config.antt =====
-- src/utils/ConfigParser.cpp: `read` and `operator<<`, on the bytes of the file. `std::map` is the
-- list of its entries in the order of their keys, and `std::getline` cuts at the line feeds.
pub mod Order
pub mod Lines
pub mod Reading
pub mod Creating
pub mod Opening
pub mod Restarting
use pulse_net.Base.{
  ℕ, zero, suc, ◌-◌, Bool, true, false, Option, none, some, List, [], ◌∷◌, ◌++◌, length, take, drop,
  ltb, ◌==◌, if◌then◌else◌,
}
use pulse_net.Base.Bytes.{Bytes, equal, codes}

abbrev pub Entries : Type 0
Entries = List (Bytes × Bytes)

abbrev pub comment_char : ℕ
comment_char = b'*'

abbrev pub config_key_separator : ℕ
config_key_separator = b'='

-- `operator<` of two strings.
unfoldable pub less : Bytes → Bytes → Bool
less [] [] = false
less [] (d ∷ right) = true
less (c ∷ left) [] = false
less (c ∷ left) (d ∷ right) =
    let rest = less left right in if ltb c d then true else if c == d then rest else false

-- `m_config[key] = value`
unfoldable pub assign : Bytes → Bytes → Entries → Entries
unfolding less
assign k v [] = (k, v) ∷ []
assign k v ((j, w) ∷ m) =
    let rest = assign k v m in
    if equal k j then (k, v) ∷ m else if less k j then (k, v) ∷ (j, w) ∷ m else (j, w) ∷ rest

-- The lines that `std::getline` gives.
unfoldable pub lines : Bytes → List Bytes
lines [] = []
lines (c ∷ rest) =
    if c == 10
    then [] ∷ lines rest
    else elim (lines rest) [ [] ↦ (c ∷ []) ∷ [] | line ∷ more ↦ (c ∷ line) ∷ more ]

-- `std::string::find` of a char, `none` for npos.
unfoldable pub find_char : ℕ → Bytes → Option ℕ
find_char d [] = none
find_char d (c ∷ rest) =
    if c == d then some 0 else elim (find_char d rest) [ none ↦ none | some i ↦ some (suc i) ]

-- `substr(0, separator_index)`, and `substr(separator_index + 1, line.size() - 1)`. Of npos the first
-- takes the whole line, and npos + 1 is 0.
unfoldable pub key_of : Bytes → Bytes
unfolding find_char
key_of line = elim (find_char config_key_separator line) [ none ↦ line | some i ↦ take i line ]

unfoldable pub value_of : Bytes → Bytes
unfolding find_char
value_of line = elim (find_char config_key_separator line) [
  | none ↦ take (length line - 1) line
  | some i ↦ take (length line - 1) (drop (suc i) line)
]

-- `!line.empty() && line[0] != COMMENT_CHAR`
unfoldable pub is_entry : Bytes → Bool
is_entry [] = false
is_entry (c ∷ rest) = if c == comment_char then false else true

unfoldable pub read_lines : List Bytes → Entries → Entries
unfolding is_entry key_of value_of assign
read_lines [] m = m
read_lines (line ∷ more) m =
    read_lines more (if is_entry line then assign (key_of line) (value_of line) m else m)

-- The rest of the file is read into the configuration.
unfoldable pub read : Bytes → Entries → Entries
unfolding lines read_lines
read file m = read_lines (lines file) m

-- `operator<<`
unfoldable pub print : Entries → Bytes
print [] = []
print ((k, v) ∷ m) = k ++ config_key_separator ∷ (v ++ 10 ∷ print m)
