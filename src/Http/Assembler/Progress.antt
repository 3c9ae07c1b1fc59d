-- ===== src/Http/Assembler/Progress.antt =====
-- Termination of the loop of `HttpAssembler::feed` (src/networking/http/HttpAssembler.cpp).
use pulse_net.Base.{
  ℕ, zero, suc, ◌-◌, ◌≤◌, ◌<◌, Bool, true, false, ◌≡◌, refl, ◌⊎◌, inl, inr, ltb, if◌then◌else◌,
  arith, Bool-cases, ltb_false→le, ltb→lt, lt→ltb, le→ltb_false, ◌∙◌,
}
use pulse_net.Http.Assembler.State.{HttpState, HttpStreamState, Limits, Machine, Flow, leave, again}
use pulse_net.Http.Assembler.Lines.{
  response_or_request, first_word, response_status, response_headers_start, request_uri,
  request_http_version,
}
use pulse_net.Http.Assembler.HeaderLines.{header_name, header_value, finish_no_body}
use pulse_net.Http.Assembler.Content.{
  body, chunk_size, chunk, chunk_skip_line, end_of_chunked_request,
}
use pulse_net.Http.Assembler.Feed.{dispatch, is_error, end_round, round, run, run_all}

-- A case of the `switch` leaves the position alone, or takes what was read out of the buffer.
abbrev pub Advances : ℕ → ℕ → Flow → Type 0
Advances p l (leave n) = (n.client.pos ≡ p) × (n.buffer_len ≡ l)
Advances p l (again n) = n.buffer_len - n.client.pos < l - p

first_word-pos : (part : _) (s : HttpStreamState) → (first_word part s).pos ≡ s.pos
unfolding first_word
first_word-pos part s = ground arith

response_or_request-pos :
    (buffer : _) (c : ℕ) (s : HttpStreamState) → (response_or_request buffer c s).pos ≡ s.pos
unfolding response_or_request
response_or_request-pos buffer c s = ground arith

response_status-pos :
    (l : Limits) (buffer : _) (c : ℕ) (s : HttpStreamState)
    → (response_status l buffer c s).pos ≡ s.pos
unfolding response_status
response_status-pos l buffer c s = ground arith

header_value-pos :
    (l : Limits) (buffer : _) (c : ℕ) (s : HttpStreamState)
    → (header_value l buffer c s).pos ≡ s.pos
unfolding header_value
header_value-pos l buffer c s = ground arith

chunk_size-pos :
    (l : Limits) (buffer : _) (c : ℕ) (s : HttpStreamState) → (chunk_size l buffer c s).pos ≡ s.pos
unfolding chunk_size
chunk_size-pos l buffer c s = ground arith

finish_no_body-Advances :
    (m : Machine)
    → m.client.pos < m.buffer_len
    → Advances m.client.pos m.buffer_len (finish_no_body m)
unfolding finish_no_body
finish_no_body-Advances m h = ground arith

header_name-Advances :
    (l : Limits) (c : ℕ) (m : Machine)
    → m.client.pos < m.buffer_len
    → Advances m.client.pos m.buffer_len (header_name l c m)
unfolding header_name
header_name-Advances l c m h = ground arith

chunk-Advances :
    (l : Limits) (m : Machine)
    → m.client.pos < m.buffer_len
    → Advances m.client.pos m.buffer_len (chunk l m)
unfolding chunk
chunk-Advances l m h = ground arith

body-Advances :
    (l : Limits) (m : Machine)
    → m.client.pos < m.buffer_len
    → Advances m.client.pos m.buffer_len (body l m)
unfolding body
body-Advances l m h = ground arith

end_of_chunked_request-Advances :
    (c : ℕ) (m : Machine)
    → m.client.pos < m.buffer_len
    → Advances m.client.pos m.buffer_len (end_of_chunked_request c m)
unfolding end_of_chunked_request
end_of_chunked_request-Advances c m h = ground arith

pub dispatch-Advances :
    (st : HttpState) (l : Limits) (c : ℕ) (m : Machine)
    → m.client.pos < m.buffer_len
    → Advances m.client.pos m.buffer_len (dispatch st l c m)
unfolding dispatch response_headers_start request_uri request_http_version chunk_skip_line
dispatch-Advances HttpState.parse_response_or_request l c m h =
    (response_or_request-pos m.buffer c m.client, refl)
dispatch-Advances HttpState.parse_response_status l c m h =
    (response_status-pos l m.buffer c m.client, refl)
dispatch-Advances HttpState.parse_header_name l c m h = header_name-Advances l c m h
dispatch-Advances HttpState.parse_header_value l c m h =
    (header_value-pos l m.buffer c m.client, refl)
dispatch-Advances HttpState.parse_body l c m h = body-Advances l m h
dispatch-Advances HttpState.parse_chunk_size l c m h = (chunk_size-pos l m.buffer c m.client, refl)
dispatch-Advances HttpState.parse_chunk l c m h = chunk-Advances l m h
dispatch-Advances HttpState.parse_end_of_chunked_request l c m h =
    end_of_chunked_request-Advances c m h
dispatch-Advances _ l c m h = ground arith

-- A round that does not stop leaves fewer bytes to read.
abbrev pub Shrinks : Machine → Machine × Bool → Type 0
Shrinks m (n, true) = is_error n.client.state ≡ true
Shrinks m (n, false) = n.buffer_len - n.client.pos < m.buffer_len - m.client.pos

end_round-Shrinks :
    (m : Machine) (f : Flow)
    → m.client.pos < m.buffer_len
    → Advances m.client.pos m.buffer_len f
    → Shrinks m (end_round f)
unfolding end_round
end_round-Shrinks m (again n) h a = a
end_round-Shrinks m (leave n) h a = ground arith

pub round-Shrinks : (l : Limits) (m : Machine) → m.client.pos < m.buffer_len → Shrinks m (round l m)
unfolding round
round-Shrinks l m h = end_round-Shrinks m _ h (dispatch-Advances _ l _ _ h)

-- The loop has ended by one of its two tests.
abbrev pub Ended : Machine → Type 0
Ended m = (is_error m.client.state ≡ true) ⊎ (m.buffer_len ≤ m.client.pos)

-- One round, then the rest of the loop.
unfoldable pub after_round : (Machine → Machine) → Machine × Bool → Machine
after_round rest (n, stopped) = if stopped then n else rest n

pub run_more :
    (fuel : ℕ) (l : Limits) (m : Machine)
    → m.client.pos < m.buffer_len
    → run (suc fuel) l m ≡ after_round (run fuel l) (round l m)
unfolding run after_round
run_more fuel l m h = rw (lt→ltb _ _ h)

pub run_out :
    (fuel : ℕ) (l : Limits) (m : Machine) → m.buffer_len ≤ m.client.pos → run (suc fuel) l m ≡ m
unfolding run
run_out fuel l m h = rw (le→ltb_false _ _ h)

after_round-Ended :
    (m : Machine) (rest : Machine → Machine) (r : Machine × Bool)
    → ((n : Machine) → n.buffer_len - n.client.pos < m.buffer_len - m.client.pos → Ended (rest n))
    → Shrinks m r
    → Ended (after_round rest r)
unfolding after_round
after_round-Ended m rest (n, true) ih s = inl s
after_round-Ended m rest (n, false) ih s = ih n s

run-Ended :
    (fuel : ℕ) (l : Limits) (m : Machine)
    → m.buffer_len - m.client.pos ≤ fuel
    → Ended (run fuel l m)
run-Ended zero l m h = unfold run in inr (omega arith)
run-Ended (suc fuel) l m h = elim (Bool-cases (ltb m.client.pos m.buffer_len)) [
  | inr out ↦ rw (run_out fuel l m (ltb_false→le _ _ out)) (inr (ltb_false→le _ _ out))
  | inl more ↦
      let lt = ltb→lt _ _ more in
      rw (run_more fuel l m lt) (
        after_round-Ended m (run fuel l) (round l m) (λ n less. run-Ended fuel l n (omega arith))
          (round-Shrinks l m lt))
]

-- The loop always ends: with the error state, or with every byte read.
pub run_all-Ended : (l : Limits) (m : Machine) → Ended (run_all l m)
unfolding run_all
run_all-Ended l m = run-Ended _ l m (omega arith)

after_round_fuel :
    (m : Machine) (f g : Machine → Machine) (r : Machine × Bool)
    → ((n : Machine) → n.buffer_len - n.client.pos < m.buffer_len - m.client.pos → f n ≡ g n)
    → Shrinks m r
    → after_round f r ≡ after_round g r
unfolding after_round
after_round_fuel m f g (n, true) ih s = refl
after_round_fuel m f g (n, false) ih s = ih n s

run_fuel :
    (j k : ℕ) (l : Limits) (m : Machine)
    → m.buffer_len - m.client.pos ≤ j
    → m.buffer_len - m.client.pos ≤ k
    → run j l m ≡ run k l m
run_fuel zero zero l m p q = refl
run_fuel zero (suc k) l m p q = rw (run_out k l m (omega arith)) (unfold run in refl)
run_fuel (suc j) zero l m p q = rw (run_out j l m (omega arith)) (unfold run in refl)
run_fuel (suc j) (suc k) l m p q = elim (Bool-cases (ltb m.client.pos m.buffer_len)) [
  | inr out ↦ let le = ltb_false→le _ _ out in rw (run_out j l m le, run_out k l m le) refl
  | inl more ↦
      let lt = ltb→lt _ _ more in
      rw (run_more j l m lt, run_more k l m lt)
        (after_round_fuel m (run j l) (run k l) (round l m)
          (λ n less. run_fuel j k l n (omega arith) (omega arith)) (round-Shrinks l m lt))
]

-- The three ways in which the loop goes on, with no fuel in sight.
pub run_all_out : (l : Limits) (m : Machine) → m.buffer_len ≤ m.client.pos → run_all l m ≡ m
unfolding run_all
run_all_out l m h = run_fuel _ 0 l m (omega arith) (omega arith) ∙ unfold run in refl

pub run_all_more :
    (l : Limits) (m : Machine)
    → m.client.pos < m.buffer_len
    → run_all l m ≡ after_round (run_all l) (round l m)
unfolding run_all
run_all_more l m h =
    run_fuel _ (suc (m.buffer_len - m.client.pos)) l m (omega arith) (omega arith)
    ∙ run_more _ l m h
    ∙ after_round_fuel m _ _ (round l m) (λ n less. run_fuel _ _ l n (omega arith) (omega arith))
        (round-Shrinks l m h)

pub run_all_next :
    (l : Limits) (m n : Machine)
    → m.client.pos < m.buffer_len
    → round l m ≡ (n, false)
    → run_all l m ≡ run_all l n
run_all_next l m n h e = run_all_more l m h ∙ rw e (unfold after_round in refl)

pub run_all_stop :
    (l : Limits) (m n : Machine)
    → m.client.pos < m.buffer_len
    → round l m ≡ (n, true)
    → run_all l m ≡ n
run_all_stop l m n h e = run_all_more l m h ∙ rw e (unfold after_round in refl)
