-- ===== src/Utils/Console/Tokens.antt =====
-- The tokens of a line of src/utils/Console.cpp, and the commands that they call.
use mathlib.Core.List.{append_assoc, append-nil}
use pulse_net.Base.{
  ℕ, ◌<◌, true, false, ◌≡◌, ◌⊎◌, refl, sym, ap, ◌∙◌, some, List, [], ◌∷◌, ◌++◌, length, arith,
  if◌then◌else◌, Bool-cases, inl, inr,
}
use pulse_net.Base.Bytes.{concat, Bytes, equal, equal_iff}
use pulse_net.Utils.Console.{
  is_space, close_token, tokens, tokenize, find_command, register_command, run_tokens, run, called,
}

abbrev pub IsSolid : Bytes → Type 0
IsSolid [] = Unit {0}
IsSolid (c ∷ w) = (is_space c ≡ false) × IsSolid w

-- Tokens are not empty and hold no blank.
abbrev pub AreTokens : List Bytes → Type 0
AreTokens [] = Unit {0}
AreTokens (w ∷ more) = (0 < length w) × IsSolid w × AreTokens more

-- The chars of a line that are not blank.
abbrev pub solid : Bytes → Bytes
solid [] = []
solid (c ∷ line) = let rest = solid line in if is_space c then rest else c ∷ rest

close_token-AreTokens :
    (w : Bytes) (more : List Bytes) → IsSolid w → AreTokens more → AreTokens (close_token w more)
close_token-AreTokens [] more s t = t
close_token-AreTokens (c ∷ w) more s t = (omega arith, s, t)

concat-close_token :
    (w : Bytes) (more : List Bytes) → concat (close_token w more) ≡ w ++ concat more
concat-close_token [] more = refl
concat-close_token (c ∷ w) more = refl

IsSolid-snoc : (w : Bytes) (c : ℕ) → IsSolid w → is_space c ≡ false → IsSolid (w ++ c ∷ [])
IsSolid-snoc [] c s e = (e, tt)
IsSolid-snoc (x ∷ w) c s e = (s.0, IsSolid-snoc w c s.1 e)

tokens-solid :
    (w line : Bytes)
    → IsSolid w
    → AreTokens (tokens w line) × (concat (tokens w line) ≡ w ++ solid line)
unfolding tokens
tokens-solid w [] s = (close_token-AreTokens w [] s tt, concat-close_token w [])
tokens-solid w (c ∷ line) s = elim (Bool-cases (is_space c)) [
  | inl e ↦
      let (t, f) = tokens-solid [] line tt in
      rw e (
        close_token-AreTokens w (tokens [] line) s t,
        concat-close_token w (tokens [] line) ∙ ap (λ (x : Bytes). w ++ x) f,
      )
  | inr e ↦
      let (t, f) = tokens-solid (w ++ c ∷ []) line (IsSolid-snoc w c s e) in
      rw e (t, f ∙ append_assoc w (c ∷ []) (solid line))
]

-- Each token of a line is not empty and holds no blank, and the tokens one behind the other are the
-- chars of the line that are not blank, in their order.
pub tokenize-solid :
    (line : Bytes) → AreTokens (tokenize line) × (concat (tokenize line) ≡ solid line)
unfolding tokenize
tokenize-solid line = tokens-solid [] line tt

abbrev pub AreBlank : Bytes → Type 0
AreBlank [] = Unit {0}
AreBlank (c ∷ gap) = (is_space c ≡ true) × AreBlank gap

-- Words, each with what stands behind it, and the words alone.
abbrev pub spread : List (Bytes × Bytes) → Bytes
spread [] = []
spread ((w, gap) ∷ more) = w ++ (gap ++ spread more)

abbrev pub words : List (Bytes × Bytes) → List Bytes
words [] = []
words ((w, gap) ∷ more) = w ∷ words more

-- Words that are not empty and hold no blank, with blanks behind them, one or more behind all but the
-- last.
abbrev pub AreSpread : List (Bytes × Bytes) → Type 0
AreSpread [] = Unit {0}
AreSpread ((w, gap) ∷ more) =
    (0 < length w) × IsSolid w × AreBlank gap × ((more ≡ []) ⊎ (0 < length gap)) × AreSpread more

tokens-word : (w v rest : Bytes) → IsSolid v → tokens w (v ++ rest) ≡ tokens (w ++ v) rest
unfolding tokens
tokens-word w [] rest s = ap (λ (x : Bytes). tokens x rest) (sym (append-nil w))
tokens-word w (c ∷ v) rest s = rw (s.0) (
    tokens-word (w ++ c ∷ []) v rest s.1
    ∙ ap (λ (x : Bytes). tokens x rest) (append_assoc w (c ∷ []) v))

tokens-blank : (gap rest : Bytes) → AreBlank gap → tokens [] (gap ++ rest) ≡ tokens [] rest
unfolding tokens
tokens-blank [] rest blank = refl
tokens-blank (c ∷ gap) rest blank = rw (blank.0) (tokens-blank gap rest blank.1)

tokens-gap :
    (w gap rest : Bytes)
    → AreBlank gap
    → (rest ≡ []) ⊎ (0 < length gap)
    → tokens w (gap ++ rest) ≡ close_token w (tokens [] rest)
unfolding tokens
tokens-gap w [] rest blank (inl e) = rw e refl
tokens-gap w [] rest blank (inr h) = absurd (omega arith)
tokens-gap w (c ∷ gap) rest blank h =
    rw (blank.0) (ap (close_token w) (tokens-blank gap rest blank.1))

close_token-cons : (w : Bytes) (more : List Bytes) → 0 < length w → close_token w more ≡ w ∷ more
close_token-cons [] more h = absurd (omega arith)
close_token-cons (c ∷ w) more h = refl

tokens-spread : (ws : List (Bytes × Bytes)) → AreSpread ws → tokens [] (spread ws) ≡ words ws
tokens-spread [] t = unfold tokens in refl
tokens-spread ((w, gap) ∷ more) (some_char, solid_word, blank, apart, rest) =
    let last_or_apart : (spread more ≡ []) ⊎ (0 < length gap) = elim apart [
      | inl e ↦ inl (ap spread e)
      | inr h ↦ inr h
    ] in
    tokens-word [] w (gap ++ spread more) solid_word
    ∙ tokens-gap w gap (spread more) blank last_or_apart
    ∙ close_token-cons w (tokens [] (spread more)) some_char
    ∙ ap (◌∷◌ w) (tokens-spread more rest)

pub find_command-register :
    {H : Type 0} (name j : Bytes) (h : H) (list : List (Bytes × H))
    → find_command j (register_command name h list)
      ≡ (if equal j name then some h else find_command j list)
unfolding find_command register_command
find_command-register name j h [] = refl
find_command-register name j h ((n, g) ∷ rest) =
    ground (
      arith,
      equal_iff name n,
      equal_iff j n,
      equal_iff j name,
      find_command-register name j h rest,
    )

run_tokens-register :
    {H : Type 0} (name : Bytes) (h : H) (list : List (Bytes × H)) (args : List Bytes)
    → run_tokens (register_command name h list) (name ∷ args) ≡ called h (name ∷ args) ∷ []
unfolding run_tokens
run_tokens-register name h list args =
    rw (run_tokens, find_command-register name name h list, (equal_iff name name).1 refl) refl

-- A line of a registered name and its arguments, with any blanks in front, one or more between the words
-- and any behind the last one, calls the handler that was registered last under that name, with the
-- name and the arguments, and the loop goes on with the next line.
pub run-registered :
    {H : Type 0} (name gap lead : Bytes) (h : H) (list : List (Bytes × H))
    (args : List (Bytes × Bytes)) (more : List Bytes)
    → AreBlank lead
    → AreSpread ((name, gap) ∷ args)
    → run (register_command name h list) ((lead ++ spread ((name, gap) ∷ args)) ∷ more)
      ≡ called h (name ∷ words args) ∷ run (register_command name h list) more
unfolding run tokenize
run-registered name gap lead h list args more blank t =
    let next = register_command name h list in
    ap (λ (ts : List Bytes). run_tokens next ts ++ run next more)
      (tokens-blank lead (spread ((name, gap) ∷ args)) blank ∙ tokens-spread ((name, gap) ∷ args) t)
    ∙ ap (λ out. out ++ run next more) (run_tokens-register name h list (words args))
