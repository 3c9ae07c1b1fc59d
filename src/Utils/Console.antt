-- ===== src/Utils/Console.antt =====
-- src/utils/Console.cpp: the commands, and `run` on the lines of the input. A handler is a value of a
-- type of its own; the prompt is in Prompt.
pub mod Tokens
pub mod Prompt
use pulse_net.Base.{
  ℕ, Bool, true, false, ◌||◌, ◌&&◌, Option, none, some, List, [], ◌∷◌, ◌++◌, ◌==◌, leb,
  if◌then◌else◌,
}
use pulse_net.Base.Bytes.{Bytes, equal}

-- `isspace` in the "C" locale, which `operator>>` of a stream skips.
abbrev pub is_space : ℕ → Bool
is_space c = c == b' ' || leb 9 c && leb c 13

-- A token ends; there is none where a blank follows a blank.
abbrev pub close_token : Bytes → List Bytes → List Bytes
close_token [] more = more
close_token (c ∷ token) more = (c ∷ token) ∷ more

-- The tokens of a line, behind the chars of a token that has begun.
unfoldable pub tokens : Bytes → Bytes → List Bytes
tokens token [] = close_token token []
tokens token (c ∷ line) =
    let ended = tokens [] line in
    let longer = tokens (token ++ c ∷ []) line in
    if is_space c then close_token token ended else longer

unfoldable pub tokenize : Bytes → List Bytes
unfolding tokens
tokenize line = tokens [] line

-- What a command does: a handler is called with its arguments, or an error is printed, the one of
-- `handle` or the one of `run`.
pub data Outcome (H : Type 0) : Type 0 where
  called : H → List Bytes → Outcome H
  not_found : Outcome H
  unknown : Bytes → Outcome H

module _ {H : Type 0} where
  unfoldable pub find_command : Bytes → List (Bytes × H) → Option H
  find_command name [] = none
  find_command name ((n, h) ∷ rest) = if equal name n then some h else find_command name rest

  -- `m_command_list[command] = handler`; the order of the entries is not seen.
  unfoldable pub register_command : Bytes → H → List (Bytes × H) → List (Bytes × H)
  register_command name h [] = (name, h) ∷ []
  register_command name h ((n, g) ∷ rest) =
      let others = register_command name h rest in
      if equal name n then (n, h) ∷ rest else (n, g) ∷ others

  unfoldable pub handle : Bytes → List Bytes → List (Bytes × H) → Outcome H
  unfolding find_command
  handle name args list = elim (find_command name list) [
    | some h ↦ called h args
    | none ↦ not_found
  ]

  -- One round of the loop, on the tokens of the line.
  unfoldable pub run_tokens : List (Bytes × H) → List Bytes → List (Outcome H)
  unfolding find_command
  run_tokens list [] = []
  run_tokens list (name ∷ args) = elim (find_command name list) [
    | some h ↦ called h (name ∷ args) ∷ []
    | none ↦ unknown name ∷ []
  ]

  -- The loop, until `std::getline` finds the end of the input.
  unfoldable pub run : List (Bytes × H) → List Bytes → List (Outcome H)
  unfolding run_tokens tokenize
  run list [] = []
  run list (line ∷ more) = run_tokens list (tokenize line) ++ run list more
