-- ===== src/Http/Assembler/Pieces/Feeding.antt =====
-- Bytes that arrive in pieces, each of which is stored behind the bytes that `HttpAssembler::feed`
-- (src/networking/http/HttpAssembler.cpp) left in the buffer, and fed.
use mathlib.Core.List.{append_assoc, append-nil}
use pulse_net.Base.{
  ℕ, ◌+◌, ◌≤◌, ◌<◌, ◌≡◌, refl, sym, ap, ◌∙◌, true, false, List, [], ◌∷◌, ◌++◌, ◌⊎◌, inl, inr,
  if◌then◌else◌, take, drop, length, length-append, length-take, arith, subst,
}
use pulse_net.Base.Bytes.{Bytes, concat}
use pulse_net.Http.Message.HeaderMap.{Headers}
use pulse_net.Http.Assembler.State.{HttpStreamState, Limits, Machine}
use pulse_net.Http.Assembler.Feed.{Fed, AssemblingResult, run_all, feed_client}
use pulse_net.Http.Assembler.Progress.{run_all_out}
use pulse_net.Http.Assembler.Shrinking.{run_all-le}
use pulse_net.Http.Assembler.Pieces.View.{View}
use pulse_net.Http.Assembler.Pieces.Runs.{IsReady, run_all-Reached}
use pulse_net.Http.Assembler.Pieces.Answers.{
  stored, IsWaiting, IsAlike, prefixed, behind, valid-stored, length-stored, answer, answer_refused,
  answer_going, refused-IsAlike, going-IsAlike,
}

module _ (iterate : Headers → Headers) (l : Limits) (capacity : ℕ) where
  -- The machine at the start of the loop.
  abbrev pub begun : HttpStreamState → Bytes → ℕ → Machine
  begun s buffer len = record { client = s; buffer = buffer; buffer_len = len; messages = [] }

  pub begun-IsReady :
      (s : HttpStreamState) (buffer : Bytes) (len : ℕ) (piece : Bytes)
      → IsWaiting capacity s buffer len
      → len + length piece ≤ capacity
      → IsReady capacity (begun s (stored buffer len piece) (len + length piece))
  begun-IsReady s buffer len piece w h = record {
    sound = record {
      well_formed = w.well_formed;
      read_le = let e = w.all_read in omega arith;
      len_le = h;
      buffer_full =
          length-stored buffer len piece (let e = w.buffer_full in omega arith) ∙ w.buffer_full;
    };
    synced = w.synced;
    going = w.going;
  }

  -- The buffer with both pieces is the buffer with the first, and the other bytes behind.
  begun-View :
      (s : HttpStreamState) (buffer : Bytes) (len : ℕ) (p q : Bytes)
      → len + length p ≤ length buffer
      → View [] q
          (begun s (stored buffer len p) (len + length p))
          (begun s (stored buffer len (p ++ q)) (len + length (p ++ q)))
  begun-View s buffer len p q h = record {
    same_client = refl;
    same_messages = refl;
    same_len = omega (arith, length-append p q);
    same_bytes =
        valid-stored buffer len (p ++ q) (omega arith)
        ∙ sym (append_assoc (take len buffer) p q)
        ∙ ap (λ x. x ++ q) (sym (valid-stored buffer len p (omega arith)));
    fits = omega (arith, length-stored buffer len p h);
  }

  -- What was read of the longer buffer, and what the second call reads.
  again-View :
      (q : Bytes) (m k : Machine)
      → View [] q m k
      → View m.messages []
          (begun m.client (stored m.buffer m.buffer_len q) (m.buffer_len + length q))
          k
  again-View q m k v =
      let e = v.same_len in
      record {
        same_client = v.same_client;
        same_messages = v.same_messages ∙ sym (append-nil m.messages);
        same_len = omega arith;
        same_bytes =
            v.same_bytes ∙ sym (valid-stored m.buffer m.buffer_len q v.fits) ∙ sym (append-nil _);
        fits =
            let f = v.fits in
            let kept = take m.buffer_len m.buffer in
            let last = drop (m.buffer_len + length q) m.buffer in
            omega (
              arith,
              length-append (kept ++ q) last,
              length-append kept q,
              length-take m.buffer_len m.buffer,
            );
      }

  -- Two pieces, one call for each.
  abbrev call : HttpStreamState → Bytes → ℕ → Bytes → Fed
  call s buffer len piece =
      feed_client iterate l s (stored buffer len piece) (len + length piece) capacity

  -- The second call, behind the first, gives what one call for both gives.
  second-IsAlike :
      (q : Bytes) (m n k : Machine)
      → View [] q m k
      → IsReady capacity m
      → m.buffer_len ≤ m.client.pos
      → m.buffer_len + length q < capacity
      → run_all l n ≡ run_all l k
      → IsAlike
          (behind m.messages (call m.client m.buffer m.buffer_len q))
          (answer iterate capacity (run_all l n))
  unfolding feed_client
  second-IsAlike q m n k v r out room same =
      let sound = r.sound in
      let waiting : IsWaiting capacity m.client m.buffer m.buffer_len = record {
        well_formed = sound.well_formed;
        synced = r.synced;
        going = r.going;
        all_read = omega arith;
        buffer_full = sound.buffer_full;
      } in
      let ready = begun-IsReady m.client m.buffer m.buffer_len q waiting (omega arith) in
      let j = begun m.client (stored m.buffer m.buffer_len q) (m.buffer_len + length q) in
      let (x, w, ended) = run_all-Reached capacity l m.messages [] j k (again-View q m k v) ready in
      elim ended [
        | inl (bad, stop) ↦
            rw (same ∙ stop) (refused-IsAlike iterate capacity m.messages [] (run_all l j) x w bad)
        | inr (last, done, go) ↦
            let e = w.same_len in
            let p : x.client.pos ≡ (run_all l j).client.pos = ap (λ s. s.pos) w.same_client in
            rw (same ∙ go ∙ run_all_out l x (omega arith)) (
              going-IsAlike iterate capacity m.messages (run_all l j) x w last.going
                (let s = last.sound in omega (arith, run_all-le l j)))
      ]

  -- What a call for the first of two pieces leaves for a call for the second.
  abbrev IsFirst : Fed → HttpStreamState → Bytes → ℕ → Bytes → Bytes → Type 0
  IsFirst first s buffer len p q =
      ((first.result.error ≡ true) × IsAlike first (call s buffer len (p ++ q)))
      ⊎ ((first.result.error ≡ false)
          × IsWaiting capacity first.client first.buffer first.buffer_len
          × (first.buffer_len ≤ len + length p)
          × IsAlike
              (behind first.result.messages (call first.client first.buffer first.buffer_len q))
              (call s buffer len (p ++ q)))

  call-IsFirst :
      (s : HttpStreamState) (buffer : Bytes) (len : ℕ) (p q : Bytes)
      → IsWaiting capacity s buffer len
      → len + length (p ++ q) < capacity
      → IsFirst (call s buffer len p) s buffer len p q
  unfolding feed_client
  call-IsFirst s buffer len p q w h =
      let size = length-append p q in
      let full = w.buffer_full in
      let m = begun s (stored buffer len p) (len + length p) in
      let n = begun s (stored buffer len (p ++ q)) (len + length (p ++ q)) in
      let read = run_all l m in
      let (k, v, ended) =
        run_all-Reached capacity l [] q m n (begun-View s buffer len p q (omega arith))
          (begun-IsReady s buffer len p w (omega arith)) in
      elim ended [
        | inl (bad, stop) ↦ inl (
          ap (λ f. f.result.error) (answer_refused iterate capacity read bad),
          rw stop (refused-IsAlike iterate capacity [] q read k v bad),
        )
        | inr (ready, done, go) ↦
            let sound = ready.sound in
            let less = run_all-le l m in
            rw (answer_going iterate capacity read ready.going (omega arith)) (
              inr (
                refl,
                record {
                  well_formed = sound.well_formed;
                  synced = ready.synced;
                  going = ready.going;
                  all_read = omega arith;
                  buffer_full = sound.buffer_full;
                },
                less,
                second-IsAlike q read n k v ready done (omega arith) go,
              ))
      ]

  IsAlike-trans : (a b c : Fed) → IsAlike a b → IsAlike b c → IsAlike a c
  IsAlike-trans a b c (p, q, r, s) (t, u, v, w) = (p ∙ t, q ∙ u, r ∙ v, s ∙ w)

  -- One call for each piece, up to the first that is refused; the messages of all of them.
  unfoldable pub feed_pieces : HttpStreamState → Bytes → ℕ → List Bytes → Fed
  feed_pieces s buffer len [] = record {
    result = record { messages = []; error = false; error_message = [] };
    client = s;
    buffer = buffer;
    buffer_len = len;
  }
  feed_pieces s buffer len (piece ∷ pieces) =
      let first = call s buffer len piece in
      let others = feed_pieces first.client first.buffer first.buffer_len pieces in
      if first.result.error then first else behind first.result.messages others

  feed_pieces_step :
      (first : Fed) (s : HttpStreamState) (buffer : Bytes) (len : ℕ) (p q : Bytes) (others : Fed)
      → IsFirst first s buffer len p q
      → (IsWaiting capacity first.client first.buffer first.buffer_len
          → first.buffer_len ≤ len + length p
          → IsAlike others (call first.client first.buffer first.buffer_len q))
      → IsAlike
          (if first.result.error then first else behind first.result.messages others)
          (call s buffer len (p ++ q))
  feed_pieces_step first s buffer len p q others (inl (bad, same)) ih =
      subst
        (λ b.
          IsAlike (if b then first else behind first.result.messages others)
            (call s buffer len (p ++ q)))
        (sym bad) same
  feed_pieces_step first s buffer len p q others (inr (good, w, less, same)) ih =
      let (a, b, c, d) = ih w less in
      let f = ap (λ (r : AssemblingResult). prefixed first.result.messages r) a in
      subst
        (λ b.
          IsAlike (if b then first else behind first.result.messages others)
            (call s buffer len (p ++ q)))
        (sym good) (IsAlike-trans (behind first.result.messages others) _ _ (f, b, c, d) same)

  -- With nothing more to read a call changes nothing.
  nothing_fed :
      (s : HttpStreamState) (buffer : Bytes) (len : ℕ)
      → IsWaiting capacity s buffer len
      → len < capacity
      → IsAlike (feed_pieces s buffer len []) (call s buffer len [])
  unfolding feed_pieces feed_client
  nothing_fed s buffer len w h =
      let e = w.all_read in
      let full = w.buffer_full in
      let m = begun s (stored buffer len []) (len + 0) in
      rw (run_all_out l m (omega arith), answer_going iterate capacity m w.going (omega arith))
        (
          refl,
          refl,
          omega arith,
          sym (append-nil (take len buffer)) ∙ sym (valid-stored buffer len [] (omega arith)),
        )

  -- A client that has read every byte of its buffer, with its positions in order and its content
  -- where its state says, gets pieces that all together leave a byte of the buffer free. One call
  -- of `feed` for each piece, stored behind what the call before left, up to the first piece that
  -- is refused, gives what one call gives for all pieces stored at once: the same messages in the
  -- same order, the same error and error message, the same client, the same bytes in the buffer.
  pub feed_pieces-concat :
      (s : HttpStreamState) (buffer : Bytes) (len : ℕ) (pieces : List Bytes)
      → IsWaiting capacity s buffer len
      → len + length (concat pieces) < capacity
      → IsAlike (feed_pieces s buffer len pieces) (
          feed_client iterate l s
            (stored buffer len (concat pieces))
            (len + length (concat pieces))
            capacity)
  unfolding feed_pieces
  feed_pieces-concat s buffer len [] w h = nothing_fed s buffer len w (omega arith)
  feed_pieces-concat s buffer len (piece ∷ pieces) w h =
      let size = length-append piece (concat pieces) in
      let first = call s buffer len piece in
      feed_pieces_step first s buffer len piece (concat pieces) _
        (call-IsFirst s buffer len piece (concat pieces) w h)
        (λ ready less.
          feed_pieces-concat first.client first.buffer first.buffer_len pieces ready (omega arith))
