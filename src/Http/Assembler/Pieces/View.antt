-- ===== src/Http/Assembler/Pieces/View.antt =====
-- Two machines of `HttpAssembler::feed` (src/networking/http/HttpAssembler.cpp) of which one has
-- more bytes in its buffer, and what the messages and the buffer of both become.
use mathlib.Core.List.{append_assoc}
use pulse_net.Base.{
  ℕ, zero, suc, ◌+◌, ◌-◌, ◌≤◌, ◌<◌, ◌≡◌, refl, sym, ap, ◌∙◌, List, [], ◌∷◌, ◌++◌, inl, inr, ◌==◌,
  Bool-cases, take, drop, length, length-append, length-take, length-drop, arith,
}
use pulse_net.Base.Bytes.{Bytes}
use pulse_net.Http.Message.{HttpMessage}
use pulse_net.Http.Assembler.State.{HttpStreamState, Machine, drop_read, memmove_front, emit}
use pulse_net.Http.Assembler.Invariant.Loop.{length-memmove_front}
use pulse_net.Http.Assembler.Pieces.Reads.{Agree, take-take}

take-append_le : (n : ℕ) (xs ys : Bytes) → n ≤ length xs → take n (xs ++ ys) ≡ take n xs
take-append_le zero xs ys h = refl
take-append_le (suc n) [] ys h = absurd (omega arith)
take-append_le (suc n) (x ∷ xs) ys h = ap (◌∷◌ x) (take-append_le n xs ys (omega arith))

drop-append_le : (n : ℕ) (xs ys : Bytes) → n ≤ length xs → drop n (xs ++ ys) ≡ drop n xs ++ ys
drop-append_le zero xs ys h = refl
drop-append_le (suc n) [] ys h = absurd (omega arith)
drop-append_le (suc n) (x ∷ xs) ys h = drop-append_le n xs ys (omega arith)

take-nil : (n : ℕ) → [] ≡ take {A = ℕ} n []
take-nil zero = refl
take-nil (suc n) = refl

drop-take : (a n : ℕ) (b : Bytes) → drop a (take n b) ≡ take (n - a) (drop a b)
drop-take zero n b = ground arith
drop-take (suc a) zero b = let e : 0 - suc a ≡ 0 = omega arith in rw e refl
drop-take (suc a) (suc n) [] = take-nil (suc n - suc a)
drop-take (suc a) (suc n) (x ∷ b) =
    let e : suc n - suc a ≡ n - a = omega arith in rw e (drop-take a n b)

-- The bytes of the buffer that were received.
abbrev pub valid : Machine → Bytes
valid m = take m.buffer_len m.buffer

-- `n` is `m` with `extra` behind the bytes of its buffer, and `before` in front of its messages.
pub record View (before : List HttpMessage) (extra : Bytes) (m n : Machine) : Type 0 where
  pub same_client : n.client ≡ m.client
  pub same_messages : n.messages ≡ before ++ m.messages
  pub same_len : n.buffer_len ≡ m.buffer_len + length extra
  pub same_bytes : valid n ≡ valid m ++ extra
  pub fits : m.buffer_len ≤ length m.buffer

length-valid : (m : Machine) → m.buffer_len ≤ length m.buffer → length (valid m) ≡ m.buffer_len
length-valid m h = omega (arith, length-take m.buffer_len m.buffer)

-- What was sent is gone from the front of the buffer, and the rest has moved there.
drop_read-buffer_len : (m : Machine) → (drop_read m).buffer_len ≡ m.buffer_len - (m.client.pos + 1)
unfolding drop_read
drop_read-buffer_len m = ground arith

drop_read-length : (m : Machine) → length (drop_read m).buffer ≡ length m.buffer
unfolding drop_read
drop_read-length m =
    ground (arith, length-memmove_front m.buffer (m.client.pos + 1) (m.buffer_len - m.client.pos))

drop_read-frame :
    (m : Machine) → ((drop_read m).client ≡ m.client) × ((drop_read m).messages ≡ m.messages)
unfolding drop_read
drop_read-frame m = ground arith

take-memmove_front :
    (n : ℕ) (b : Bytes) (a k : ℕ)
    → n ≤ k
    → n + a ≤ length b
    → take n (memmove_front b a k) ≡ take n (drop a b)
unfolding memmove_front
take-memmove_front n b a k h q =
    let moved = take k (drop a b) in
    take-append_le n moved (drop (length moved) b)
      (omega (arith, length-take k (drop a b), length-drop a b))
    ∙ take-take n k (drop a b) h

drop_read-valid :
    (m : Machine)
    → m.client.pos < m.buffer_len
    → m.buffer_len ≤ length m.buffer
    → valid (drop_read m) ≡ drop (m.client.pos + 1) (valid m)
unfolding drop_read
drop_read-valid m h q = elim (Bool-cases (m.client.pos == m.buffer_len - 1)) [
  | inl last ↦
      let e : m.buffer_len - (m.client.pos + 1) ≡ 0 = ground arith in
      rw (last, drop-take (m.client.pos + 1) m.buffer_len m.buffer, e) refl
  | inr more ↦
      let e : m.buffer_len - m.client.pos - 1 ≡ m.buffer_len - (m.client.pos + 1) = omega arith in
      rw (more, drop-take (m.client.pos + 1) m.buffer_len m.buffer, e)
        (take-memmove_front _ m.buffer _ _ (omega arith) (omega arith))
]

module _ (before : List HttpMessage) (extra : Bytes) (m n : Machine)
    (v : View before extra m n) where
  length-valid_more : length (valid n) ≡ n.buffer_len
  length-valid_more =
      let e = v.same_len in
      ap length v.same_bytes ∙ omega (arith, length-append (valid m) extra, length-valid m v.fits)

  fits_more : n.buffer_len ≤ length n.buffer
  fits_more = omega (arith, length-valid_more, length-take n.buffer_len n.buffer)

  -- Both buffers start with the bytes that the first machine has.
  pub View-Agree : Agree m.buffer_len n.buffer m.buffer
  View-Agree =
      sym (take-take m.buffer_len n.buffer_len n.buffer (let e = v.same_len in omega arith))
      ∙ ap (take m.buffer_len) v.same_bytes
      ∙ take-append_le m.buffer_len (valid m) extra (omega (arith, length-valid m v.fits))
      ∙ take-take m.buffer_len m.buffer_len m.buffer (omega arith)

  same_pos : n.client.pos ≡ m.client.pos
  same_pos = ap (λ s. s.pos) v.same_client

  -- A message is complete.
  pub View-finished :
      (message copy : HttpMessage) (s : HttpStreamState)
      → copy ≡ message
      → m.client.pos < m.buffer_len
      → View before extra
          (record (drop_read (emit message m)) { client = s })
          (record (drop_read (emit copy n)) { client = s })
  View-finished message copy s e h = record {
    same_client = refl;
    same_messages =
        (drop_read-frame (emit copy n)).1
        ∙ ap (λ x. n.messages ++ x ∷ []) e
        ∙ ap (λ x. x ++ message ∷ []) v.same_messages
        ∙ append_assoc before m.messages (message ∷ [])
        ∙ ap (λ x. before ++ x) (sym (drop_read-frame (emit message m)).1);
    same_len =
        let e = v.same_len in
        omega (
          arith,
          same_pos,
          drop_read-buffer_len (emit message m),
          drop_read-buffer_len (emit copy n),
        );
    same_bytes =
        let e = v.same_len in
        drop_read-valid (emit copy n) (omega (arith, same_pos)) fits_more
        ∙ rw (same_pos, v.same_bytes)
            (drop-append_le (m.client.pos + 1) (valid m) extra
              (omega (arith, length-valid m v.fits)))
        ∙ ap (λ x. x ++ extra) (sym (drop_read-valid (emit message m) h v.fits));
    fits =
        let f = v.fits in
        omega (arith, drop_read-buffer_len (emit message m), drop_read-length (emit message m));
  }

  -- A byte was handled.
  pub View-read :
      (s t : HttpStreamState)
      → t ≡ s
      → View before extra (record m { client = s }) (record n { client = t })
  View-read s t e = record {
    same_client = e;
    same_messages = v.same_messages;
    same_len = v.same_len;
    same_bytes = v.same_bytes;
    fits = v.fits;
  }
