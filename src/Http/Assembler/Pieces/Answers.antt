-- ===== src/Http/Assembler/Pieces/Answers.antt =====
-- The answer of `HttpAssembler::feed` (src/networking/http/HttpAssembler.cpp) to the bytes that its loop
-- has handled, for two machines of which one has more bytes.
use mathlib.Core.List.{append-nil}
use pulse_net.Base.{
  ℕ, ◌+◌, ◌≤◌, ◌<◌, ◌≡◌, refl, sym, ap, ◌∙◌, true, false, List, [], ◌++◌, ◌==◌, take, drop, length,
  length-append, length-take, length-drop, take-length-append, arith,
}
use pulse_net.Base.Bytes.{Bytes}
use pulse_net.Http.Message.{HttpMessage, serialize}
use pulse_net.Http.Message.HeaderMap.{Headers}
use pulse_net.Http.Assembler.State.{HttpStreamState, Machine, reset_state}
use pulse_net.Http.Assembler.Feed.{
  Fed, AssemblingResult, is_error, after_loop, finish_feed, error_response,
}
use pulse_net.Http.Assembler.Invariant.{IsWellFormed}
use pulse_net.Http.Assembler.Pieces.Synced.{IsSynced}
use pulse_net.Http.Assembler.Pieces.View.{View, valid}

-- The buffer when `piece` was received behind its first `len` bytes.
abbrev pub stored : Bytes → ℕ → Bytes → Bytes
stored buffer len piece = take len buffer ++ piece ++ drop (len + length piece) buffer

-- A client that has read every byte of its buffer, which is `capacity` bytes long.
pub record IsWaiting (capacity : ℕ) (s : HttpStreamState) (buffer : Bytes) (len : ℕ) : Type 0 where
  pub well_formed : IsWellFormed capacity s
  pub synced : IsSynced s
  pub going : is_error s.state ≡ false
  pub all_read : s.pos ≡ len
  pub buffer_full : length buffer ≡ capacity

-- The same answer, the same state, and the same bytes left in the buffer.
abbrev pub IsAlike : Fed → Fed → Type 0
IsAlike a b =
    (a.result ≡ b.result)
    × (a.client ≡ b.client)
    × (a.buffer_len ≡ b.buffer_len)
    × (take a.buffer_len a.buffer ≡ take b.buffer_len b.buffer)

abbrev pub prefixed : List HttpMessage → AssemblingResult → AssemblingResult
prefixed before r = record r { messages = before ++ r.messages }

-- The answer of a later call, with the messages of the earlier ones in front.
abbrev pub behind : List HttpMessage → Fed → Fed
behind before f = record f { result = prefixed before f.result }

pub valid-stored :
    (buffer : Bytes) (len : ℕ) (piece : Bytes)
    → len ≤ length buffer
    → take (len + length piece) (stored buffer len piece) ≡ take len buffer ++ piece
valid-stored buffer len piece h =
    let kept = take len buffer ++ piece in
    let e : len + length piece ≡ length kept =
      omega (arith, length-append (take len buffer) piece, length-take len buffer) in
    rw e (take-length-append kept _)

pub length-stored :
    (buffer : Bytes) (len : ℕ) (piece : Bytes)
    → len + length piece ≤ length buffer
    → length (stored buffer len piece) ≡ length buffer
length-stored buffer len piece h = omega (
  arith,
  length-append (take len buffer ++ piece) (drop (len + length piece) buffer),
  length-append (take len buffer) piece,
  length-take len buffer,
  length-drop (len + length piece) buffer,
)

module _ (iterate : Headers → Headers) (capacity : ℕ) where
  -- The answer to the bytes that the loop has handled.
  abbrev pub answer : Machine → Fed
  answer m = finish_feed iterate (after_loop capacity m)

  pub answer_refused :
      (m : Machine)
      → is_error m.client.state ≡ true
      → answer m ≡ record {
        result = record {
          messages = m.messages;
          error = true;
          error_message = serialize iterate (error_response m.client);
        };
        client = reset_state m.client;
        buffer = m.buffer;
        buffer_len = 0;
      }
  unfolding finish_feed after_loop
  answer_refused m e = rw e (rw e refl)

  pub answer_going :
      (m : Machine)
      → is_error m.client.state ≡ false
      → m.client.pos < capacity
      → answer m ≡ record {
        result = record { messages = m.messages; error = false; error_message = [] };
        client = m.client;
        buffer = m.buffer;
        buffer_len = m.buffer_len;
      }
  unfolding finish_feed after_loop
  answer_going m e h =
      let room : (m.client.pos == capacity) ≡ false = ground arith in rw (e, room) (rw e refl)

  -- A request that is refused is refused with more bytes behind it, too.
  pub refused-IsAlike :
      (before : List HttpMessage) (extra : Bytes) (m k : Machine)
      → View before extra m k
      → is_error m.client.state ≡ true
      → IsAlike (behind before (answer m)) (answer k)
  refused-IsAlike before extra m k v bad =
      let same = v.same_client in
      let copy : is_error k.client.state ≡ true = ap (λ s. is_error s.state) same ∙ bad in
      rw (answer_refused m bad, answer_refused k copy)
        (
          λ i. record {
            messages = sym v.same_messages i;
            error = true;
            error_message = serialize iterate (error_response (sym same i));
          },
          ap reset_state (sym same),
          refl,
          refl,
        )

  -- Machines with the same bytes give the same answer.
  pub going-IsAlike :
      (before : List HttpMessage) (m k : Machine)
      → View before [] m k
      → is_error m.client.state ≡ false
      → m.client.pos < capacity
      → IsAlike (behind before (answer m)) (answer k)
  going-IsAlike before m k v good room =
      let same = v.same_client in
      let e = v.same_len in
      let copy : is_error k.client.state ≡ false = ap (λ s. is_error s.state) same ∙ good in
      let there : k.client.pos < capacity = omega (arith, ap (λ s. s.pos) same) in
      rw (answer_going m good room, answer_going k copy there)
        (
          λ i. record { messages = sym v.same_messages i; error = false; error_message = [] },
          sym same,
          omega arith,
          sym (append-nil (valid m)) ∙ sym v.same_bytes,
        )
