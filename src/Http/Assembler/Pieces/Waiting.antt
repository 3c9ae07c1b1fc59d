-- ===== src/Http/Assembler/Pieces/Waiting.antt =====
-- What every call of `HttpAssembler::feed` (src/networking/http/HttpAssembler.cpp) leaves for the
-- next one, also where the buffer was full and room had to be made in it.
use mathlib.Core.List.{append-nil}
use pulse_net.Base.{
  ℕ, ◌+◌, ◌-◌, ◌≤◌, ◌<◌, ◌≡◌, refl, sym, ap, ◌∙◌, true, false, [], ◌∷◌, ◌++◌, ◌⊎◌, inl, inr, ◌==◌,
  Bool-cases, drop, length, length-take, length-drop, arith, subst,
}
use pulse_net.Base.Int.{minus_one, eq_ℤ, pos_part}
use pulse_net.Base.Bytes.{Bytes, slice}
use pulse_net.Http.Message.HeaderMap.{Headers}
use pulse_net.Http.Assembler.State.{HttpState, HttpStreamState, Limits, Machine, reset_state}
use pulse_net.Http.Assembler.Feed.{
  is_error, run_all, after_loop, make_room, flush_content, checkpoint_or_fail, compact, finish_feed,
  feed_client,
}
use pulse_net.Http.Assembler.Invariant.Loop.{feed_client-FitsFed}
use pulse_net.Http.Assembler.Pieces.Synced.{IsSynced, ContentSynced, Synced}
use pulse_net.Http.Assembler.Pieces.View.{View}
use pulse_net.Http.Assembler.Pieces.Runs.{IsReady, run_all-Reached}
use pulse_net.Http.Assembler.Pieces.Feeding.{begun-IsReady}
use pulse_net.Http.Assembler.Pieces.Answers.{IsWaiting, stored}

-- Refused, or with every byte read and the content where the state says.
abbrev IsSettled : Machine → Type 0
IsSettled m =
    (is_error m.client.state ≡ true)
    ⊎ (IsSynced m.client × (is_error m.client.state ≡ false) × (m.client.pos ≡ m.buffer_len))

-- Content is put by; where there was none, none was counted.
append-ContentSynced :
    (w v : Bytes) (a n p : ℕ)
    → ContentSynced w a n p
    → length v ≡ p - a
    → ContentSynced (w ++ v) 0 n 0
append-ContentSynced [] [] a n p c e = omega arith
append-ContentSynced [] (x ∷ v) a n p c e = refl
append-ContentSynced (x ∷ w) v a n p c e = refl

length-slice : (b : Bytes) (x y : ℕ) → y ≤ length b → length (slice b x y) ≡ y - x
length-slice b x y h = omega (arith, length-take (y - x) (drop x b), length-drop x b)

checkpoint-IsSettled :
    (m : Machine)
    → (m.client.body ≡ [] → IsSynced (compact (pos_part m.client.last_checkpoint) m).client)
    → m.client.body ≡ []
    → is_error m.client.state ≡ false
    → m.client.pos ≡ m.buffer_len
    → IsSettled (checkpoint_or_fail m)
unfolding checkpoint_or_fail is_error compact
checkpoint-IsSettled m keep none good e =
    elim (Bool-cases (eq_ℤ m.client.last_checkpoint minus_one)) [
      | inl missing ↦ rw missing (inl refl)
      | inr there ↦ rw there (inr (keep none, good, omega arith))
    ]

-- The client's state, given what the state of the parser is.
IsSynced-of :
    (st : HttpState) (s : HttpStreamState)
    → s.state ≡ st
    → Synced st s.body s.i_start s.length_counter s.pos
    → IsSynced s
IsSynced-of st s e y = subst (λ t. Synced t s.body s.i_start s.length_counter s.pos) (sym e) y

of-IsSynced :
    (st : HttpState) (s : HttpStreamState)
    → s.state ≡ st
    → IsSynced s
    → Synced st s.body s.i_start s.length_counter s.pos
of-IsSynced st s e y = subst (λ t. Synced t s.body s.i_start s.length_counter s.pos) e y

flush_content-IsSettled :
    (st : HttpState) (m : Machine)
    → m.client.state ≡ st
    → is_error st ≡ false
    → (ContentSynced
          (m.client.body ++ slice m.buffer m.client.i_start m.client.pos)
          0
          m.client.length_counter
          0
        → Synced st
            (m.client.body ++ slice m.buffer m.client.i_start m.client.pos)
            0
            m.client.length_counter
            0)
    → ContentSynced m.client.body m.client.i_start m.client.length_counter m.client.pos
    → m.client.pos ≤ length m.buffer
    → IsSettled (flush_content m)
unfolding flush_content
flush_content-IsSettled st m e g f y h =
    let s = m.client in
    let kept =
      append-ContentSynced s.body (slice m.buffer s.i_start s.pos) s.i_start s.length_counter s.pos
        y (length-slice m.buffer s.i_start s.pos h) in
    inr (
      subst (λ t. Synced t (s.body ++ slice m.buffer s.i_start s.pos) 0 s.length_counter 0) (sym e)
          (f kept),
      ap is_error e ∙ g,
      refl,
    )

compact-body : (k : ℕ) (m : Machine) → (compact k m).client.body ≡ m.client.body
unfolding compact
compact-body k m = refl

compact-state : (k : ℕ) (m : Machine) → (compact k m).client.state ≡ m.client.state
unfolding compact
compact-state k m = refl

make_room-IsSettled :
    (st : HttpState) (m : Machine)
    → m.client.state ≡ st
    → is_error st ≡ false
    → IsSynced m.client
    → m.client.pos ≡ m.buffer_len
    → m.buffer_len ≤ length m.buffer
    → IsSettled (make_room st m)
unfolding make_room
make_room-IsSettled HttpState.parse_body m e g y p q =
    flush_content-IsSettled HttpState.parse_body m e g (λ c. c) (of-IsSynced _ m.client e y)
      (omega arith)
make_room-IsSettled HttpState.parse_chunk m e g y p q =
    flush_content-IsSettled HttpState.parse_chunk m e g (λ c. c) (of-IsSynced _ m.client e y)
      (omega arith)
make_room-IsSettled HttpState.error m e g y p q = unfold is_error in cc
make_room-IsSettled st m e g y p q =
    let k = pos_part m.client.last_checkpoint in
    checkpoint-IsSettled m
      (λ n. IsSynced-of st (compact k m).client (compact-state k m ∙ e) (compact-body k m ∙ n))
      (of-IsSynced st m.client e y) (ap is_error e ∙ g) p

after_loop-IsSettled :
    (capacity : ℕ) (m : Machine)
    → m.buffer_len ≤ length m.buffer
    → IsSettled m
    → IsSettled (after_loop capacity m)
unfolding after_loop
after_loop-IsSettled capacity m h (inl bad) = rw bad (inl bad)
after_loop-IsSettled capacity m h (inr (y, good, e)) =
    elim (Bool-cases (m.client.pos == capacity)) [
      | inl full ↦ rw (good, full) (make_room-IsSettled m.client.state m refl good y e h)
      | inr free ↦ rw (good, free) (inr (y, good, e))
    ]

module _ (iterate : Headers → Headers) (capacity : ℕ) (l : Limits) where
  run_all-IsSettled :
      (m : Machine)
      → IsReady capacity m
      → IsSettled (run_all l m) × ((run_all l m).buffer_len ≤ length (run_all l m).buffer)
  run_all-IsSettled m r =
      let s = r.sound in
      let itself : View [] [] m m = record {
        same_client = refl;
        same_messages = refl;
        same_len = omega arith;
        same_bytes = sym (append-nil _);
        fits = omega arith;
      } in
      let (k, v, ended) = run_all-Reached capacity l [] [] m m itself r in
      (
        elim ended [
          | inl (bad, stop) ↦ inl bad
          | inr (ready, out, go) ↦
              let t = ready.sound in inr (ready.synced, ready.going, omega arith)
        ],
        v.fits,
      )

  abbrev IsSettledFed : HttpStreamState → ℕ → Type 0
  IsSettledFed s len = IsSynced s × (is_error s.state ≡ false) × (s.pos ≡ len)

  finish_feed-settled :
      (m : Machine)
      → IsSettled m
      → IsSettledFed (finish_feed iterate m).client (finish_feed iterate m).buffer_len
  unfolding finish_feed reset_state is_error
  finish_feed-settled m (inl bad) = rw bad (refl, refl, refl)
  finish_feed-settled m (inr (y, good, e)) = rw good (y, good, e)

  -- A client with its positions in order and its content where its state says, in a buffer that
  -- may be filled to the last byte: after a call of `feed`, whether it reports an error or makes
  -- room in a full buffer, the client is so again, has read every byte that is left in the buffer,
  -- is not in the error state, and there is room for at least one byte.
  pub feed_client-IsWaiting :
      (s : HttpStreamState) (buffer : Bytes) (len : ℕ) (piece : Bytes)
      → IsWaiting capacity s buffer len
      → 0 < capacity
      → len + length piece ≤ capacity
      → let fed = feed_client iterate l s (stored buffer len piece) (len + length piece) capacity in
        IsWaiting capacity fed.client fed.buffer fed.buffer_len × (fed.buffer_len < capacity)
  feed_client-IsWaiting s buffer len piece w h q =
      let e = w.all_read in
      let size = w.buffer_full in
      let r = begun-IsReady iterate l capacity s buffer len piece w q in
      let sound = r.sound in
      let (settled, fits) = run_all-IsSettled _ r in
      let positions =
        feed_client-FitsFed iterate capacity l s (stored buffer len piece) (len + length piece) h
          w.well_formed (omega arith) q sound.buffer_full in
      let state : IsSettledFed
          (feed_client iterate l s (stored buffer len piece) (len + length piece) capacity).client
          (feed_client iterate l s (stored buffer len piece) (len + length piece)
            capacity).buffer_len =
        unfold feed_client in
        finish_feed-settled _ (after_loop-IsSettled capacity _ fits settled) in
      (
        record {
          well_formed = positions.0;
          synced = state.0;
          going = state.1;
          all_read = state.2;
          buffer_full = positions.3;
        },
        positions.2,
      )
