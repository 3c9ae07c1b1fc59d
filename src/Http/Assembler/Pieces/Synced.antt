-- ===== src/Http/Assembler/Pieces/Synced.antt =====
-- Where the content of a body stands, and which content was put by, in the state of
-- `HttpAssembler::feed` (src/networking/http/HttpAssembler.cpp).
use pulse_net.Base.{ℕ, suc, false, ◌+◌, ◌≡◌, refl, [], ◌∷◌, arith}
use pulse_net.Base.Bytes.{Bytes}
use pulse_net.Http.Assembler.State.{
  HttpState, HttpStreamState, Limits, Machine, Flow, leave, again, initial_state,
}
use pulse_net.Http.Assembler.Lines.{
  response_or_request, first_word, response_status, response_headers_start, request_uri,
  request_http_version,
}
use pulse_net.Http.Assembler.HeaderLines.{header_name, header_value, trim}
use pulse_net.Http.Assembler.Content.{
  body, chunk_size, chunk, chunk_skip_line, end_of_chunked_request,
}
use pulse_net.Http.Assembler.Feed.{dispatch, is_error}

-- The content stands from `i_start` on and was counted from there; or a part of it was put by, and
-- the rest stands at the front of the buffer.
abbrev pub ContentSynced : (put_by : Bytes) → (i_start counter p : ℕ) → Type 0
ContentSynced [] a n p = a + n ≡ p
ContentSynced (x ∷ xs) a n p = a ≡ 0

-- In any other state nothing was put by.
abbrev pub Synced : HttpState → (put_by : Bytes) → (i_start counter p : ℕ) → Type 0
Synced HttpState.parse_body w a n p = ContentSynced w a n p
Synced HttpState.parse_chunk w a n p = ContentSynced w a n p
Synced HttpState.error w a n p = Unit {0}
Synced _ w a n p = w ≡ []

abbrev pub SyncedAt : ℕ → HttpStreamState → Type 0
SyncedAt p s = Synced s.state s.body s.i_start s.length_counter p

abbrev pub IsSynced : HttpStreamState → Type 0
IsSynced s = SyncedAt s.pos s

ContentSynced-counted :
    (w : Bytes) (a n p : ℕ) → ContentSynced w a n p → ContentSynced w a (n + 1) (suc p)
ContentSynced-counted [] a n p c = omega arith
ContentSynced-counted (x ∷ w) a n p c = c

Synced-counted :
    (st : HttpState) (w : Bytes) (a n p : ℕ) → Synced st w a n p → Synced st w a (n + 1) (suc p)
Synced-counted HttpState.parse_body w a n p c = ContentSynced-counted w a n p c
Synced-counted HttpState.parse_chunk w a n p c = ContentSynced-counted w a n p c
Synced-counted HttpState.error w a n p c = tt
Synced-counted _ w a n p c = c

-- `length_counter++`, at the head of a round.
pub IsSynced-counted :
    (s : HttpStreamState)
    → IsSynced s
    → SyncedAt (suc s.pos) (record s { length_counter = s.length_counter + 1 })
IsSynced-counted s c = Synced-counted s.state s.body s.i_start s.length_counter s.pos c

-- After a case of the `switch` at position `p`. A case that ends by `continue` raises no error.
abbrev pub StaysSynced : ℕ → Flow → Type 0
StaysSynced p (leave n) = SyncedAt (suc p) n.client
StaysSynced p (again n) = IsSynced n.client × (is_error n.client.state ≡ false)

module _ (l : Limits) (c : ℕ) (m : Machine) where
  pub dispatch-StaysSynced :
      (st : HttpState)
      → m.client.state ≡ st
      → SyncedAt (suc m.client.pos) m.client
      → StaysSynced m.client.pos (dispatch st l c m)
  unfolding dispatch is_error
  dispatch-StaysSynced HttpState.parse_response_or_request e w =
      unfold response_or_request first_word in ground arith
  dispatch-StaysSynced HttpState.parse_response_status e w = unfold response_status in ground arith
  dispatch-StaysSynced HttpState.parse_response_headers_start e w =
      unfold response_headers_start in ground arith
  dispatch-StaysSynced HttpState.parse_request_uri e w = unfold request_uri in ground arith
  dispatch-StaysSynced HttpState.parse_request_http_version e w =
      unfold request_http_version in ground arith
  dispatch-StaysSynced HttpState.parse_header_name e w = unfold header_name in ground arith
  dispatch-StaysSynced HttpState.parse_header_value e w = unfold header_value trim in ground arith
  dispatch-StaysSynced HttpState.parse_body e w = unfold body in ground arith
  dispatch-StaysSynced HttpState.parse_chunk_size e w = unfold chunk_size in ground arith
  dispatch-StaysSynced HttpState.parse_chunk e w = unfold chunk in ground arith
  dispatch-StaysSynced HttpState.parse_chunk_skip_line e w = unfold chunk_skip_line in ground arith
  dispatch-StaysSynced HttpState.parse_end_of_chunked_request e w =
      unfold end_of_chunked_request in ground arith
  dispatch-StaysSynced HttpState.start e w = ground arith
  dispatch-StaysSynced HttpState.done e w = ground arith
  dispatch-StaysSynced HttpState.error e w = ground arith

pub initial_state-IsSynced : IsSynced initial_state
unfolding initial_state
initial_state-IsSynced = refl
