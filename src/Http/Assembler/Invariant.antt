-- ===== src/Http/Assembler/Invariant.antt =====
-- The positions that `HttpAssembler::feed` keeps in a client's state
-- (src/networking/http/HttpAssembler.cpp): the well-formedness invariant.
pub mod Loop
use pulse_net.Base.{
  ℕ, zero, suc, ◌+◌, ◌-◌, ◌≤◌, ◌<◌, Bool, true, false, ◌≡◌, refl, ltb, leb, ◌==◌, if◌then◌else◌,
  arith, ◌⊎◌, inl, inr, subst, ap, ◌∙◌, Bool-cases, ltb→lt, ltb_false→le, length, take, drop,
  length-append, length-take, length-drop,
}
use pulse_net.Base.Int.{ℤ, pos_part}
use pulse_net.Base.Bytes.{Bytes, byte_at}
use pulse_net.Http.Assembler.State.{
  HttpState, HttpStreamState, Limits, Machine, Flow, leave, again, drop_read, reset_state,
  initial_state, memmove_front,
}
use pulse_net.Http.Assembler.Lines.{
  response_or_request, first_word, response_status, response_headers_start, request_uri,
  request_http_version,
}
use pulse_net.Http.Assembler.HeaderLines.{
  header_name, header_value, trim, skip_spaces, drop_spaces, end_of_name, end_of_value, start_body,
  finish_no_body, end_of_headers,
}
use pulse_net.Http.Assembler.Content.{
  body, chunk_size, chunk, chunk_skip_line, end_of_chunked_request,
}
use pulse_net.Http.Assembler.Feed.{dispatch, is_error, end_round, round, run}
use pulse_net.Http.Assembler.Progress.{
  Advances, Shrinks, after_round, dispatch-Advances, round-Shrinks, run_more, run_out,
}

-- -1, or a place behind the first byte of the buffer.
abbrev InBuffer : ℕ → ℤ → Type 0
InBuffer capacity (ℤ.pos n) = (0 < n) × (n ≤ capacity)
InBuffer capacity (ℤ.negsuc n) = n ≡ 0

-- What a state knows of the positions, with `p` the position of the next byte: the token that is
-- being read is `[i_start, i_end)` and ends at the next byte, but in a body; the header name
-- stands before the value; the checkpoint lies in the buffer. STATE_START and STATE_DONE are never
-- entered.
abbrev Fits :
    HttpState → (capacity p i_start i_end name_start name_end : ℕ) → (checkpoint : ℤ) → Type 0
Fits HttpState.start capacity p a b ns ne k = ⊥
Fits HttpState.done capacity p a b ns ne k = ⊥
Fits HttpState.error capacity p a b ns ne k = Unit {0}
Fits HttpState.parse_body capacity p a b ns ne k = (a ≤ b) × (b ≤ p) × InBuffer capacity k
Fits HttpState.parse_header_value capacity p a b ns ne k =
    (a ≤ b) × (b ≡ p) × InBuffer capacity k × (ns ≤ ne) × (ne ≤ a)
Fits _ capacity p a b ns ne k = (a ≤ b) × (b ≡ p) × InBuffer capacity k

abbrev FitsAt : ℕ → ℕ → HttpStreamState → Type 0
FitsAt capacity p s =
    Fits s.state capacity p s.i_start s.i_end s.header_name_start s.header_name_end
      s.last_checkpoint

abbrev pub IsWellFormed : ℕ → HttpStreamState → Type 0
IsWellFormed capacity s = FitsAt capacity s.pos s

pub skip_spaces_bounds :
    (buffer : Bytes) (a n : ℕ) → (a ≤ skip_spaces buffer a n) × (skip_spaces buffer a n ≤ a + n)
unfolding skip_spaces
skip_spaces_bounds buffer a zero = omega arith
skip_spaces_bounds buffer a (suc n) = ground (arith, skip_spaces_bounds buffer (a + 1) n)

pub drop_spaces_bounds :
    (buffer : Bytes) (a n : ℕ) → (a ≤ drop_spaces buffer a n) × (drop_spaces buffer a n ≤ a + n)
unfolding drop_spaces
drop_spaces_bounds buffer a zero = omega arith
drop_spaces_bounds buffer a (suc n) = ground (arith, drop_spaces_bounds buffer a n)

pub trim_bounds :
    (buffer : Bytes) (s : HttpStreamState)
    → s.i_start ≤ s.i_end
    → (s.i_start ≤ (trim buffer s).i_start)
      × ((trim buffer s).i_start ≤ (trim buffer s).i_end)
      × ((trim buffer s).i_end ≤ s.i_end)
unfolding trim
trim_bounds buffer s h =
    let a = skip_spaces buffer s.i_start (s.i_end - s.i_start) in
    omega (
      arith,
      skip_spaces_bounds buffer s.i_start (s.i_end - s.i_start),
      drop_spaces_bounds buffer a (s.i_end - a),
    )

-- The parts of a state that the trimming loops leave alone.
trim_frame :
    (buffer : Bytes) (s : HttpStreamState)
    → ((trim buffer s).pos ≡ s.pos) × ((trim buffer s).last_checkpoint ≡ s.last_checkpoint)
unfolding trim
trim_frame buffer s = (refl, refl)

-- After a case of the `switch` at position `p`.
abbrev Keeps : ℕ → ℕ → Flow → Type 0
Keeps capacity p (leave n) = FitsAt capacity (suc p) n.client
Keeps capacity p (again n) = IsWellFormed capacity n.client

module _ (capacity : ℕ) (s : HttpStreamState) (room : s.pos < capacity) where
  response_or_request-Fits :
      (buffer : Bytes) (c : ℕ)
      → s.state ≡ HttpState.parse_response_or_request
      → IsWellFormed capacity s
      → FitsAt capacity (suc s.pos) (response_or_request buffer c s)
  unfolding response_or_request
  response_or_request-Fits buffer c e w = ground arith

  response_status-Fits :
      (l : Limits) (buffer : Bytes) (c : ℕ)
      → s.state ≡ HttpState.parse_response_status
      → IsWellFormed capacity s
      → FitsAt capacity (suc s.pos) (response_status l buffer c s)
  unfolding response_status
  response_status-Fits l buffer c e w = ground arith

  response_headers_start-Fits :
      (l : Limits) (buffer : Bytes) (c : ℕ)
      → s.state ≡ HttpState.parse_response_headers_start
      → IsWellFormed capacity s
      → FitsAt capacity (suc s.pos) (response_headers_start l buffer c s)
  unfolding response_headers_start
  response_headers_start-Fits l buffer c e w = ground arith

  request_uri-Fits :
      (l : Limits) (buffer : Bytes) (c : ℕ)
      → s.state ≡ HttpState.parse_request_uri
      → IsWellFormed capacity s
      → FitsAt capacity (suc s.pos) (request_uri l buffer c s)
  unfolding request_uri
  request_uri-Fits l buffer c e w = ground arith

  request_http_version-Fits :
      (l : Limits) (buffer : Bytes) (c : ℕ)
      → s.state ≡ HttpState.parse_request_http_version
      → IsWellFormed capacity s
      → FitsAt capacity (suc s.pos) (request_http_version l buffer c s)
  unfolding request_http_version
  request_http_version-Fits l buffer c e w = ground arith

  header_value-Fits :
      (l : Limits) (buffer : Bytes) (c : ℕ)
      → s.state ≡ HttpState.parse_header_value
      → IsWellFormed capacity s
      → FitsAt capacity (suc s.pos) (header_value l buffer c s)
  unfolding header_value
  header_value-Fits l buffer c e w = ground arith

  chunk_size-Fits :
      (l : Limits) (buffer : Bytes) (c : ℕ)
      → s.state ≡ HttpState.parse_chunk_size
      → IsWellFormed capacity s
      → FitsAt capacity (suc s.pos) (chunk_size l buffer c s)
  unfolding chunk_size
  chunk_size-Fits l buffer c e w = ground arith

  chunk_skip_line-Fits :
      (buffer : Bytes) (c : ℕ)
      → s.state ≡ HttpState.parse_chunk_skip_line
      → IsWellFormed capacity s
      → FitsAt capacity (suc s.pos) (chunk_skip_line buffer c s)
  unfolding chunk_skip_line
  chunk_skip_line-Fits buffer c e w = ground arith

module _ (capacity : ℕ) (m : Machine) (room : m.client.pos < capacity) where
  header_name-Keeps :
      (l : Limits) (c : ℕ)
      → m.client.state ≡ HttpState.parse_header_name
      → IsWellFormed capacity m.client
      → Keeps capacity m.client.pos (header_name l c m)
  unfolding header_name
  header_name-Keeps l c e w = ground (
    arith,
    trim_bounds m.buffer
        (record m.client { total_headers_counter = m.client.total_headers_counter + 1 }),
  )

  body-Keeps :
      (l : Limits)
      → m.client.state ≡ HttpState.parse_body
      → IsWellFormed capacity m.client
      → Keeps capacity m.client.pos (body l m)
  unfolding body
  body-Keeps l e w = ground arith

  chunk-Keeps :
      (l : Limits)
      → m.client.state ≡ HttpState.parse_chunk
      → IsWellFormed capacity m.client
      → Keeps capacity m.client.pos (chunk l m)
  unfolding chunk
  chunk-Keeps l e w = ground arith

  end_of_chunked_request-Keeps :
      (c : ℕ)
      → m.client.state ≡ HttpState.parse_end_of_chunked_request
      → IsWellFormed capacity m.client
      → Keeps capacity m.client.pos (end_of_chunked_request c m)
  unfolding end_of_chunked_request
  end_of_chunked_request-Keeps c e w = ground arith

  dispatch-Keeps :
      (st : HttpState) (l : Limits) (c : ℕ)
      → m.client.state ≡ st
      → IsWellFormed capacity m.client
      → Keeps capacity m.client.pos (dispatch st l c m)
  unfolding dispatch
  dispatch-Keeps HttpState.parse_response_or_request l c e w =
      response_or_request-Fits capacity m.client room m.buffer c e w
  dispatch-Keeps HttpState.parse_response_status l c e w =
      response_status-Fits capacity m.client room l m.buffer c e w
  dispatch-Keeps HttpState.parse_response_headers_start l c e w =
      response_headers_start-Fits capacity m.client room l m.buffer c e w
  dispatch-Keeps HttpState.parse_request_uri l c e w =
      request_uri-Fits capacity m.client room l m.buffer c e w
  dispatch-Keeps HttpState.parse_request_http_version l c e w =
      request_http_version-Fits capacity m.client room l m.buffer c e w
  dispatch-Keeps HttpState.parse_header_name l c e w = header_name-Keeps l c e w
  dispatch-Keeps HttpState.parse_header_value l c e w =
      header_value-Fits capacity m.client room l m.buffer c e w
  dispatch-Keeps HttpState.parse_body l c e w = body-Keeps l e w
  dispatch-Keeps HttpState.parse_chunk_size l c e w =
      chunk_size-Fits capacity m.client room l m.buffer c e w
  dispatch-Keeps HttpState.parse_chunk l c e w = chunk-Keeps l e w
  dispatch-Keeps HttpState.parse_chunk_skip_line l c e w =
      chunk_skip_line-Fits capacity m.client room m.buffer c e w
  dispatch-Keeps HttpState.parse_end_of_chunked_request l c e w = end_of_chunked_request-Keeps c e w
  dispatch-Keeps HttpState.start l c e w = absurd (rw e at w)
  dispatch-Keeps HttpState.done l c e w = absurd (rw e at w)
  dispatch-Keeps HttpState.error l c e w = rw e tt
