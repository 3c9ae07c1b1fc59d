-- ===== src/Server/Sending/Outgoing.antt =====
-- The parts that `send` of src/networking/TCPServer.h cuts a message into.
use mathlib.Core.List.{append-nil}
use pulse_net.Base.{
  ℕ, zero, suc, ◌+◌, ◌-◌, ◌<◌, ◌≤◌, ◌≡◌, refl, sym, List, [], ◌∷◌, length, drop, ltb, arith,
  Bool-cases, inl, inr, ltb→lt, ltb_false→le, leb, leb→le, take-append-drop, drop-drop, length-take,
  if◌then◌else◌, ◌≢◌,
}
use pulse_net.Base.Bytes.{Bytes, concat}
use pulse_net.Server.Sending.{cut, outgoing}

-- Every part is at most `len` bytes long.
abbrev pub AreShort : ℕ → List Bytes → Type 0
AreShort len [] = Unit {0}
AreShort len (x ∷ xs) = (length x ≤ len) × AreShort len xs

drop_outside : (n : ℕ) (xs : Bytes) → length xs ≤ n → drop n xs ≡ []
drop_outside zero [] h = refl
drop_outside zero (x ∷ xs) h = absurd (omega arith)
drop_outside (suc n) [] h = refl
drop_outside (suc n) (x ∷ xs) h = drop_outside n xs (omega arith)

-- Rounds enough: the parts from `offset` on give the rest of the message.
concat-cut :
    (fuel len offset : ℕ) (message : Bytes)
    → 0 < len
    → length message - offset ≤ fuel
    → concat (cut fuel len offset message) ≡ drop offset message
unfolding cut
concat-cut zero len offset message h e = sym (drop_outside offset message (omega arith))
concat-cut (suc fuel) len offset message h e = elim (Bool-cases (ltb offset (length message))) [
  | inr out ↦ rw out (sym (drop_outside offset message (ltb_false→le _ _ out)))
  | inl more ↦
      let left = length message - offset in
      let lt = ltb→lt _ _ more in
      let chunk = if ltb left len then left else len in
      let part : 0 < chunk = ground arith in
      rw
        (
          more,
          concat-cut fuel len (offset + chunk) message h (omega arith),
          sym (drop-drop offset chunk message),
        )
        (take-append-drop chunk (drop offset message))
]

AreShort-cut : (fuel len offset : ℕ) (message : Bytes) → AreShort len (cut fuel len offset message)
unfolding cut
AreShort-cut zero len offset message = tt
AreShort-cut (suc fuel) len offset message = elim (Bool-cases (ltb offset (length message))) [
  | inr out ↦ rw out tt
  | inl more ↦
      let left = length message - offset in
      let chunk = if ltb left len then left else len in
      rw more (
        ground (arith, length-take chunk (drop offset message)),
        AreShort-cut fuel len (offset + chunk) message,
      )
]

cut-ne-nil :
    (fuel len : ℕ) (message : Bytes) → 0 < fuel → 0 < length message → cut fuel len 0 message ≢ []
unfolding cut
cut-ne-nil zero len message h k e = absurd (omega arith)
cut-ne-nil (suc fuel) len message h k e = ground arith

-- With a buffer that is not empty, the parts of a message give the message when they are put one
-- behind the other, none is longer than the buffer, and there is at least one.
pub outgoing-parts :
    (len : ℕ) (message : Bytes)
    → 0 < len
    → (concat (outgoing len message) ≡ message)
      × AreShort len (outgoing len message)
      × (outgoing len message ≢ [])
unfolding outgoing
outgoing-parts len message h = elim (Bool-cases (leb (length message) len)) [
  | inl fits ↦ rw fits (append-nil message, (leb→le _ _ fits, tt), λ e. absurd cc)
  | inr long ↦ rw long (
    concat-cut (length message) len 0 message h (omega arith),
    AreShort-cut (length message) len 0 message,
    cut-ne-nil (length message) len message (ground arith) (ground arith),
  )
]
