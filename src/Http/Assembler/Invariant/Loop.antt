-- ===== src/Http/Assembler/Invariant/Loop.antt =====
-- The invariant of Http.Assembler.Invariant over the loop and over `feed`
-- (src/networking/http/HttpAssembler.cpp).
use pulse_net.Base.{
  ℕ, zero, suc, ◌+◌, ◌-◌, ◌≤◌, ◌<◌, Bool, true, false, ◌≡◌, refl, ltb, ◌==◌, arith, ==_iff, [], ◌⊎◌,
  inl, inr, subst, ap, ◌∙◌, Bool-cases, ltb→lt, ltb_false→le, length, take, drop, length-append,
  length-take, length-drop,
}
use pulse_net.Base.Int.{ℤ, minus_one}
use pulse_net.Base.Bytes.{Bytes, byte_at}
use pulse_net.Http.Message.HeaderMap.{Headers}
use pulse_net.Http.Assembler.State.{
  HttpState, HttpStreamState, Limits, Machine, Flow, leave, again, initial_state, memmove_front,
}
use pulse_net.Http.Assembler.HeaderLines.{header_name}
use pulse_net.Http.Assembler.Content.{body, chunk, end_of_chunked_request}
use pulse_net.Http.Assembler.Feed.{
  Fed, dispatch, is_error, end_round, round, run, run_all, compact, make_room, after_loop,
  feed_client, flush_content, checkpoint_or_fail, finish_feed,
}
use pulse_net.Http.Assembler.Progress.{
  Advances, Shrinks, after_round, dispatch-Advances, round-Shrinks, run_more, run_out, Ended,
  run_all-Ended,
}
use pulse_net.Http.Assembler.Invariant.{Fits, FitsAt, InBuffer, IsWellFormed, Keeps, dispatch-Keeps}

-- The machine at the head of the loop, over a buffer of `capacity` bytes.
pub record IsSound (capacity : ℕ) (m : Machine) : Type 0 where
  pub well_formed : IsWellFormed capacity m.client
  pub read_le : m.client.pos ≤ m.buffer_len
  pub len_le : m.buffer_len ≤ capacity
  pub buffer_full : length m.buffer ≡ capacity

pub length-memmove_front :
    (buffer : Bytes) (offset count : ℕ) → length (memmove_front buffer offset count) ≡ length buffer
unfolding memmove_front
length-memmove_front buffer offset count =
    let moved = take count (drop offset buffer) in
    omega (
      arith,
      length-append moved (drop (length moved) buffer),
      length-drop (length moved) buffer,
      length-take count (drop offset buffer),
      length-drop offset buffer,
    )

-- What a case of the `switch` leaves of the buffer.
abbrev KeepsBuffer : Machine → Flow → Type 0
KeepsBuffer m (leave n) = (n.buffer ≡ m.buffer) × (n.buffer_len ≡ m.buffer_len)
KeepsBuffer m (again n) =
    (length n.buffer ≡ length m.buffer) × (n.buffer_len ≤ m.buffer_len) × (n.client.pos ≡ 0)

dispatch-KeepsBuffer :
    (st : HttpState) (l : Limits) (c : ℕ) (m : Machine)
    → m.client.pos < m.buffer_len
    → KeepsBuffer m (dispatch st l c m)
unfolding dispatch header_name body chunk end_of_chunked_request
dispatch-KeepsBuffer HttpState.parse_header_name l c m h =
    ground (arith, length-memmove_front m.buffer (m.client.pos + 1) (m.buffer_len - m.client.pos))
dispatch-KeepsBuffer HttpState.parse_body l c m h =
    ground (arith, length-memmove_front m.buffer (m.client.pos + 1) (m.buffer_len - m.client.pos))
dispatch-KeepsBuffer HttpState.parse_chunk l c m h =
    ground (arith, length-memmove_front m.buffer (m.client.pos + 1) (m.buffer_len - m.client.pos))
dispatch-KeepsBuffer HttpState.parse_end_of_chunked_request l c m h =
    ground (arith, length-memmove_front m.buffer (m.client.pos + 1) (m.buffer_len - m.client.pos))
dispatch-KeepsBuffer _ l c m h = (refl, refl)

module _ (capacity : ℕ) (l : Limits) (m : Machine) (more : m.client.pos < m.buffer_len) where
  end_round-IsSound :
      (p : ℕ) (f : Flow)
      → p ≡ m.client.pos
      → IsSound capacity m
      → Advances p m.buffer_len f
      → Keeps capacity p f
      → KeepsBuffer m f
      → (end_round f).1 ≡ false
      → IsSound capacity (end_round f).0
  unfolding end_round
  end_round-IsSound p (leave n) q s a k b e = elim (Bool-cases (is_error n.client.state)) [
    | inl bad ↦ cc (rw bad at e)
    | inr good ↦ rw good (record {
      well_formed = subst (λ x. FitsAt capacity x n.client) (omega arith) k;
      read_le = omega arith;
      len_le = omega arith;
      buffer_full = ap length b.0 ∙ s.buffer_full;
    })
  ]
  end_round-IsSound p (again n) q s a k b e = record {
    well_formed = k;
    read_le = omega arith;
    len_le = omega arith;
    buffer_full = b.0 ∙ s.buffer_full;
  }

  pub round-IsSound : IsSound capacity m → (round l m).1 ≡ false → IsSound capacity (round l m).0
  unfolding round
  round-IsSound s e =
      let n = record m {
        client = record m.client { length_counter = m.client.length_counter + 1 };
      } in
      let room : m.client.pos < capacity = omega arith in
      let c = byte_at m.buffer m.client.pos in
      end_round-IsSound m.client.pos _ refl s (dispatch-Advances m.client.state l c n more)
        (dispatch-Keeps capacity n room m.client.state l c refl s.well_formed)
        (dispatch-KeepsBuffer m.client.state l c n more) e

-- The request was refused; the buffer is as long as it was.
abbrev IsRefused : ℕ → Machine → Type 0
IsRefused capacity m = (is_error m.client.state ≡ true) × (length m.buffer ≡ capacity)

end_round-length :
    (m : Machine) (f : Flow) → KeepsBuffer m f → length (end_round f).0.buffer ≡ length m.buffer
unfolding end_round
end_round-length m (leave n) b = ground (arith, ap length b.0)
end_round-length m (again n) b = b.0

round-length :
    (l : Limits) (m : Machine)
    → m.client.pos < m.buffer_len
    → length (round l m).0.buffer ≡ length m.buffer
unfolding round
round-length l m h = end_round-length m _ (dispatch-KeepsBuffer m.client.state l _ _ h)

after_round-IsSound :
    {capacity : ℕ} (m : Machine) (rest : Machine → Machine) (r : Machine × Bool)
    → Shrinks m r
    → length r.0.buffer ≡ capacity
    → (r.1 ≡ false → IsRefused capacity (rest r.0) ⊎ IsSound capacity (rest r.0))
    → IsRefused capacity (after_round rest r) ⊎ IsSound capacity (after_round rest r)
unfolding after_round
after_round-IsSound m rest (n, true) h b ih = inl (h, b)
after_round-IsSound m rest (n, false) h b ih = ih refl

-- The loop ends in the error state, or with the positions in order and every byte read.
run-IsSound :
    (capacity fuel : ℕ) (l : Limits) (m : Machine)
    → IsSound capacity m
    → IsRefused capacity (run fuel l m) ⊎ IsSound capacity (run fuel l m)
run-IsSound capacity zero l m s = unfold run in inr s
run-IsSound capacity (suc fuel) l m s = elim (Bool-cases (ltb m.client.pos m.buffer_len)) [
  | inr out ↦ rw (run_out fuel l m (ltb_false→le _ _ out)) (inr s)
  | inl more ↦
      let lt = ltb→lt _ _ more in
      rw (run_more fuel l m lt) (
        after_round-IsSound m (run fuel l) (round l m) (round-Shrinks l m lt)
          (round-length l m lt ∙ s.buffer_full)
          (λ e. run-IsSound capacity fuel l (round l m).0 (round-IsSound capacity l m lt s e)))
]

abbrev pub FitsFed : ℕ → Fed → Type 0
FitsFed capacity f =
    IsWellFormed capacity f.client
    × (f.client.pos ≤ f.buffer_len)
    × (f.buffer_len < capacity)
    × (length f.buffer ≡ capacity)

-- The positions move down by `k` together.
compact-Fits :
    (st : HttpState) (capacity p a b ns ne k : ℕ) (c : ℤ)
    → Fits st capacity p a b ns ne c
    → Fits st capacity (p - k) (a - k) (b - k) (ns - k) (ne - k) minus_one
compact-Fits HttpState.parse_body capacity p a b ns ne k c f = omega arith
compact-Fits HttpState.parse_header_value capacity p a b ns ne k c f = omega arith
compact-Fits HttpState.start capacity p a b ns ne k c f = f
compact-Fits HttpState.done capacity p a b ns ne k c f = f
compact-Fits HttpState.error capacity p a b ns ne k c f = tt
compact-Fits _ capacity p a b ns ne k c f = omega arith

-- There is room for another byte, unless the request was refused.
abbrev HasRoom : ℕ → Machine → Type 0
HasRoom capacity m = IsRefused capacity m ⊎ (IsSound capacity m × (m.buffer_len < capacity))

flush_content-HasRoom :
    (capacity : ℕ) (m : Machine)
    → 0 < capacity
    → IsSound capacity m
    → Fits m.client.state capacity 0 0 0 m.client.header_name_start m.client.header_name_end
        m.client.last_checkpoint
    → HasRoom capacity (flush_content m)
unfolding flush_content
flush_content-HasRoom capacity m h s f = inr (
  record {
    well_formed = f;
    read_le = omega arith;
    len_le = omega arith;
    buffer_full = s.buffer_full;
  },
  h,
)

compact-IsSound :
    (capacity k : ℕ) (m : Machine)
    → IsSound capacity m
    → 0 < k
    → k ≤ capacity
    → m.client.pos ≡ capacity
    → IsSound capacity (compact k m) × ((compact k m).buffer_len < capacity)
unfolding compact
compact-IsSound capacity k m s h q e = (
  record {
    well_formed = compact-Fits m.client.state _ _ _ _ _ _ k _ s.well_formed;
    read_le = omega arith;
    len_le = omega arith;
    buffer_full = length-memmove_front m.buffer k k ∙ s.buffer_full;
  },
  omega arith,
)

-- The checkpoint, where the state is neither the error state nor one that is never entered.
Fits-checkpoint :
    (st : HttpState) (capacity p a b ns ne : ℕ) (c : ℤ)
    → is_error st ≡ false
    → Fits st capacity p a b ns ne c
    → InBuffer capacity c
unfolding is_error
Fits-checkpoint HttpState.start capacity p a b ns ne c e f = absurd f
Fits-checkpoint HttpState.done capacity p a b ns ne c e f = absurd f
Fits-checkpoint HttpState.error capacity p a b ns ne c e f = cc
Fits-checkpoint HttpState.parse_body capacity p a b ns ne c e f = f.2
Fits-checkpoint _ capacity p a b ns ne c e f = f.2

checkpoint-HasRoom :
    (capacity : ℕ) (c : ℤ) (m : Machine)
    → m.client.last_checkpoint ≡ c
    → InBuffer capacity c
    → IsSound capacity m
    → m.client.pos ≡ capacity
    → HasRoom capacity (checkpoint_or_fail m)
unfolding checkpoint_or_fail is_error
checkpoint-HasRoom capacity (ℤ.pos k) m e i s q =
    ground (arith, compact-IsSound capacity k m s i.0 i.1 q)
checkpoint-HasRoom capacity (ℤ.negsuc zero) m e i s q = let b = s.buffer_full in ground arith
checkpoint-HasRoom capacity (ℤ.negsuc (suc k)) m e i s q = absurd (omega arith)

make_room-HasRoom :
    (st : HttpState) (capacity : ℕ) (m : Machine)
    → m.client.state ≡ st
    → is_error st ≡ false
    → 0 < capacity
    → IsSound capacity m
    → m.client.pos ≡ capacity
    → HasRoom capacity (make_room st m)
unfolding make_room
make_room-HasRoom HttpState.parse_body capacity m e g h s q =
    flush_content-HasRoom capacity m h s (let w = s.well_formed in ground arith)
make_room-HasRoom HttpState.parse_chunk capacity m e g h s q =
    flush_content-HasRoom capacity m h s (let w = s.well_formed in ground arith)
make_room-HasRoom _ capacity m e g h s q =
    checkpoint-HasRoom capacity m.client.last_checkpoint m refl
      (Fits-checkpoint m.client.state capacity _ _ _ _ _ _ (rw e g) s.well_formed) s q

after_loop-HasRoom :
    (capacity : ℕ) (m : Machine)
    → 0 < capacity
    → Ended m
    → IsRefused capacity m ⊎ IsSound capacity m
    → HasRoom capacity (after_loop capacity m)
unfolding after_loop
after_loop-HasRoom capacity m h e (inl bad) = rw bad.0 (inl bad)
after_loop-HasRoom capacity m h e (inr s) = elim (Bool-cases (is_error m.client.state)) [
  | inl bad ↦ rw bad (inl (bad, s.buffer_full))
  | inr good ↦ elim (Bool-cases (m.client.pos == capacity)) [
    | inl full ↦
        rw (good, full)
          (make_room-HasRoom m.client.state capacity m refl good h s ((==_iff _ _).0 full))
    | inr free ↦ rw (good, free) (inr (s, ground arith))
  ]
]

module _ (iterate : Headers → Headers) where
  finish_feed-FitsFed :
      (capacity : ℕ) (m : Machine)
      → 0 < capacity
      → HasRoom capacity m
      → FitsFed capacity (finish_feed iterate m)
  unfolding finish_feed
  finish_feed-FitsFed capacity m h (inl bad) =
      rw bad.0 ((omega arith, omega arith, refl), omega arith, h, bad.1)
  finish_feed-FitsFed capacity m h (inr (s, room)) = elim (Bool-cases (is_error m.client.state)) [
    | inl bad ↦ rw bad ((omega arith, omega arith, refl), omega arith, h, s.buffer_full)
    | inr good ↦ rw good (s.well_formed, s.read_le, room, s.buffer_full)
  ]

  -- `feed` keeps a client's positions in order and inside a buffer of `capacity` bytes, and always
  -- leaves room in the buffer for the next receive.
  pub feed_client-FitsFed :
      (capacity : ℕ) (l : Limits) (s : HttpStreamState) (buffer : Bytes) (buffer_len : ℕ)
      → 0 < capacity
      → IsWellFormed capacity s
      → s.pos ≤ buffer_len
      → buffer_len ≤ capacity
      → length buffer ≡ capacity
      → FitsFed capacity (feed_client iterate l s buffer buffer_len capacity)
  unfolding feed_client
  feed_client-FitsFed capacity l s buffer buffer_len h w p q b =
      let m : Machine = record {
        client = s;
        buffer = buffer;
        buffer_len = buffer_len;
        messages = [];
      } in
      let sound : IsSound capacity m = record {
        well_formed = w;
        read_le = p;
        len_le = q;
        buffer_full = b;
      } in
      finish_feed-FitsFed capacity _ h (
        after_loop-HasRoom capacity _ h (run_all-Ended l m)
          (unfold run_all in run-IsSound capacity _ l m sound))

pub initial_state-IsWellFormed : (capacity : ℕ) → IsWellFormed capacity initial_state
unfolding initial_state
initial_state-IsWellFormed capacity = (omega arith, refl, refl)
