-- ===== src/Utils/Console/Prompt.antt =====
-- `showPrompt` of src/utils/Console.cpp at a local time, on a stream on which `std::left` was set or
-- was not. `showClients` of src/networking/TCPServer.h sets it on `std::cout`.
use pulse_net.Base.{
  ℕ, suc, ◌+◌, ◌-◌, ◌*◌, ◌/◌, ◌%◌, ◌≤◌, ◌<◌, ◌≡◌, refl, ap, Bool, true, false, [], ◌∷◌, ◌++◌,
  lt→ltb, le→ltb_false, ltb, ltb→lt, ltb_false→le, Bool-cases, inl, inr, if◌then◌else◌, length,
  replicate, arith,
}
use pulse_net.Base.Bytes.{Bytes, codes, concat}
use pulse_net.Logging.{escape}
use pulse_net.Utils.Chars.{to_string, decimal}

-- `std::setw(2) << std::setfill('0') << n`
unfoldable pub two_places : Bool → ℕ → Bytes
two_places left n =
    let text = to_string n in
    let fill = replicate (2 - length text) b'0' in if left then text ++ fill else fill ++ text

unfoldable pub show_prompt : Bool → ℕ → ℕ → ℕ → Bytes
unfolding two_places
show_prompt left hour minute second = concat (
    escape (codes "33m")
    ∷ codes "_("
    ∷ escape (codes "32m")
    ∷ codes "identifier"
    ∷ escape (codes "33m")
    ∷ codes ")-("
    ∷ escape (codes "36m")
    ∷ two_places left hour
    ∷ codes ":"
    ∷ two_places left minute
    ∷ codes ":"
    ∷ two_places left second
    ∷ escape (codes "33m")
    ∷ codes ")"
    ∷ escape (codes "0m")
    ∷ codes "\n"
    ∷ escape (codes "33m")
    ∷ codes "L "
    ∷ escape (codes "0m")
    ∷ [])

to_string_one : (n : ℕ) → n < 10 → to_string n ≡ (b'0' + n) ∷ []
unfolding to_string decimal
to_string_one n h = let e : n + 1 ≡ suc n = omega arith in rw e (rw (lt→ltb n 10 h) refl)

decimal_one : (fuel n : ℕ) → n < 10 → decimal (suc fuel) n ≡ (b'0' + n) ∷ []
unfolding decimal
decimal_one fuel n h = rw (lt→ltb n 10 h) refl

to_string_two : (n : ℕ) → 10 ≤ n → n < 100 → to_string n ≡ (b'0' + n / 10) ∷ (b'0' + n % 10) ∷ []
unfolding to_string
to_string_two n h q =
    let e : n + 1 ≡ suc (suc (n - 1)) = omega arith in
    rw e (
      unfold decimal in
      rw (le→ltb_false n 10 h)
        (ap (λ x. x ++ (b'0' + n % 10) ∷ []) (decimal_one (n - 1) (n / 10) (omega arith))))

-- Two digits, and the text of the prompt with two digits for each number of the time.
abbrev pub digits : ℕ → Bytes
digits n = (b'0' + n / 10) ∷ (b'0' + n % 10) ∷ []

abbrev pub prompt_text : ℕ → ℕ → ℕ → Bytes
prompt_text hour minute second =
    escape (codes "33m_(")
    ++ (escape (codes "32midentifier")
        ++ (escape (codes "33m)-(")
            ++ (escape (codes "36m")
                ++ (digits hour
                    ++ (codes ":"
                        ++ (digits minute
                            ++ (codes ":"
                                ++ (digits second
                                    ++ (escape (codes "33m)")
                                        ++ (escape (codes "0m\n")
                                            ++ (escape (codes "33mL ")
                                                ++ escape (codes "0m"))))))))))))

-- The number that is read off the prompt.
abbrev pub shown : Bool → ℕ → ℕ
shown true n = if ltb n 10 then n * 10 else n
shown false n = n

two_places-one : (left : Bool) (n : ℕ) → n < 10 → two_places left n ≡ digits (shown left n)
unfolding two_places
two_places-one true n h =
    let tens : n * 10 / 10 ≡ n = omega arith in
    let units : n * 10 % 10 ≡ 0 = omega arith in
    rw (to_string_one n h, lt→ltb n 10 h, tens, units) refl
two_places-one false n h =
    let tens : n / 10 ≡ 0 = omega arith in
    let units : n % 10 ≡ n = omega arith in rw (to_string_one n h, tens, units) refl

two_places-two :
    (left : Bool) (n : ℕ) → 10 ≤ n → n < 100 → two_places left n ≡ digits (shown left n)
unfolding two_places
two_places-two true n h q = rw (to_string_two n h q, le→ltb_false n 10 h) refl
two_places-two false n h q = rw (to_string_two n h q) refl

two_places-digits : (left : Bool) (n : ℕ) → n < 100 → two_places left n ≡ digits (shown left n)
two_places-digits left n q = elim (Bool-cases (ltb n 10)) [
  | inl e ↦ two_places-one left n (ltb→lt n 10 e)
  | inr e ↦ two_places-two left n (ltb_false→le n 10 e) q
]

-- For numbers below a hundred the prompt has two digits for each number of the time, hour, minute and
-- second, with a zero in front of a single digit; where `std::left` was set, a number below ten reads
-- as its tenfold, as its zero is written behind it.
pub show_prompt-digits :
    (left : Bool) (hour minute second : ℕ)
    → hour < 100
    → minute < 100
    → second < 100
    → show_prompt left hour minute second
      ≡ prompt_text (shown left hour) (shown left minute) (shown left second)
unfolding show_prompt
show_prompt-digits left hour minute second p q r =
    let h = two_places-digits left hour p in
    let m = two_places-digits left minute q in
    let s = two_places-digits left second r in rw (h, m, s) refl
