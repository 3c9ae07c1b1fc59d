-- ===== src/Http/Assembler/Feed.antt =====
-- src/networking/http/HttpAssembler.cpp: `feed`. The map of clients is an association list; calls
-- run one after the other, and the log lines are left out.
use pulse_net.Base.{
  ℕ, zero, suc, ◌+◌, ◌-◌, Bool, true, false, ◌&&◌, not, List, [], ◌∷◌, ◌++◌, ltb, ◌==◌,
  if◌then◌else◌, length,
}
use pulse_net.Base.Int.{minus_one, eq_ℤ, pos_part}
use pulse_net.Base.Bytes.{Bytes, codes, byte_at, slice}
use pulse_net.Utils.Chars.{to_string}
use pulse_net.Http.Types.{HttpStatus}
use pulse_net.Http.Message.{HttpMessage, make_response, add_header, serialize}
use pulse_net.Http.Message.HeaderMap.{Headers}
use pulse_net.Http.Assembler.State.{
  HttpState, HttpStreamState, Limits, Machine, Flow, leave, again, fail, initial_state, reset_state,
  memmove_front,
}
use pulse_net.Http.Assembler.Lines.{
  response_or_request, response_status, response_headers_start, request_uri, request_http_version,
}
use pulse_net.Http.Assembler.HeaderLines.{header_name, header_value}
use pulse_net.Http.Assembler.Content.{
  body, chunk_size, chunk, chunk_skip_line, end_of_chunked_request,
}

-- The `switch`, on the state that the byte `c` is read in.
unfoldable pub dispatch : HttpState → Limits → ℕ → Machine → Flow
dispatch HttpState.parse_response_or_request limits c m =
    leave (record m { client = response_or_request m.buffer c m.client })
dispatch HttpState.parse_response_status limits c m =
    leave (record m { client = response_status limits m.buffer c m.client })
dispatch HttpState.parse_response_headers_start limits c m =
    leave (record m { client = response_headers_start limits m.buffer c m.client })
dispatch HttpState.parse_request_uri limits c m =
    leave (record m { client = request_uri limits m.buffer c m.client })
dispatch HttpState.parse_request_http_version limits c m =
    leave (record m { client = request_http_version limits m.buffer c m.client })
dispatch HttpState.parse_header_name limits c m = header_name limits c m
dispatch HttpState.parse_header_value limits c m =
    leave (record m { client = header_value limits m.buffer c m.client })
dispatch HttpState.parse_body limits c m = body limits m
dispatch HttpState.parse_chunk_size limits c m =
    leave (record m { client = chunk_size limits m.buffer c m.client })
dispatch HttpState.parse_chunk limits c m = chunk limits m
dispatch HttpState.parse_chunk_skip_line limits c m =
    leave (record m { client = chunk_skip_line m.buffer c m.client })
dispatch HttpState.parse_end_of_chunked_request limits c m = end_of_chunked_request c m
dispatch HttpState.start limits c m = leave m
dispatch HttpState.done limits c m = leave m
dispatch HttpState.error limits c m = leave m

unfoldable pub is_error : HttpState → Bool
is_error HttpState.error = true
is_error _ = false

-- The end of a round: `true` beside the machine if the loop was left by the error.
unfoldable pub end_round : Flow → Machine × Bool
unfolding is_error
end_round (again m) = (m, false)
end_round (leave m) =
    if is_error m.client.state
    then (m, true)
    else (record m { client = record m.client { pos = m.client.pos + 1 } }, false)

-- One round of the loop.
unfoldable pub round : Limits → Machine → Machine × Bool
unfolding dispatch end_round
round limits m =
    let s = record m.client { length_counter = m.client.length_counter + 1 } in
    end_round (dispatch s.state limits (byte_at m.buffer s.pos) (record m { client = s }))

-- `while (pos < buffer_len)`, on a bound for the rounds.
unfoldable pub run : ℕ → Limits → Machine → Machine
run zero limits m = m
run (suc fuel) limits m =
    let (n, stopped) = round limits m in
    let rest = run fuel limits n in
    if ltb m.client.pos m.buffer_len then if stopped then n else rest else m

-- Every round leaves fewer bytes to read, so their number bounds the rounds.
unfoldable pub run_all : Limits → Machine → Machine
unfolding run
run_all limits m = run (m.buffer_len - m.client.pos) limits m

-- Put the content that was read by, and empty the buffer.
unfoldable pub flush_content : Machine → Machine
flush_content m =
    let s = m.client in
    record m {
      client = record s {
        body = s.body ++ slice m.buffer s.i_start s.pos;
        i_start = 0;
        i_end = 0;
        pos = 0;
      };
      buffer_len = 0;
    }

-- Drop what stands before the line that is being read.
unfoldable pub compact : ℕ → Machine → Machine
unfolding memmove_front
compact k m =
    let s = m.client in
    record m {
      buffer = memmove_front m.buffer k k;
      client = record s {
        i_start = s.i_start - k;
        i_end = s.i_end - k;
        header_name_start = s.header_name_start - k;
        header_name_end = s.header_name_end - k;
        header_value_start = s.header_value_start - k;
        header_value_end = s.header_value_end - k;
        pos = s.pos - k;
        last_checkpoint = minus_one;
      };
      buffer_len = m.buffer_len - k;
    }

-- `last_checkpoint` is -1 or a position: nothing sets it to another number.
unfoldable pub checkpoint_or_fail : Machine → Machine
unfolding compact
checkpoint_or_fail m =
    if eq_ℤ m.client.last_checkpoint minus_one
    then record m { client = fail m.client }
    else compact (pos_part m.client.last_checkpoint) m

-- The buffer is full and nothing in it can be consumed: free some space.
unfoldable pub make_room : HttpState → Machine → Machine
unfolding flush_content checkpoint_or_fail
make_room HttpState.parse_body m = flush_content m
make_room HttpState.parse_chunk m = flush_content m
make_room _ m = checkpoint_or_fail m

unfoldable pub after_loop : ℕ → Machine → Machine
unfolding is_error make_room
after_loop max_buffer_len m =
    if not (is_error m.client.state) && m.client.pos == max_buffer_len
    then make_room m.client.state m
    else m

-- `AssemblingResult`
pub record AssemblingResult : Type 0 where
  pub messages : List HttpMessage
  pub error : Bool
  pub error_message : Bytes

unfoldable pub error_body : Bytes
error_body = codes "{\n  \"message\": \"Error: malformed request syntax\",\n  \"details\": \"\"\n}"

-- The response that a malformed request is answered with.
unfoldable pub error_response : HttpStreamState → HttpMessage
error_response s =
    let response = make_response s.http_version HttpStatus.bad_request error_body in
    add_header response (codes "Content-Lenght") (to_string (length error_body))

-- What `feed` gives back: the result, the client's state, the buffer and its length.
pub record Fed : Type 0 where
  pub result : AssemblingResult
  pub client : HttpStreamState
  pub buffer : Bytes
  pub buffer_len : ℕ

module _ (iterate : Headers → Headers) where
  unfoldable pub finish_feed : Machine → Fed
  unfolding is_error reset_state
  finish_feed m =
      if is_error m.client.state
      then record {
        result = record {
          messages = m.messages;
          error = true;
          error_message = serialize iterate (error_response m.client);
        };
        client = reset_state m.client;
        buffer = m.buffer;
        buffer_len = 0;
      }
      else record {
        result = record { messages = m.messages; error = false; error_message = [] };
        client = m.client;
        buffer = m.buffer;
        buffer_len = m.buffer_len;
      }

  -- `feed` on the state of one client.
  unfoldable pub feed_client : Limits → HttpStreamState → Bytes → ℕ → ℕ → Fed
  unfolding run_all after_loop finish_feed
  feed_client limits s buffer buffer_len max_buffer_len = finish_feed (
      after_loop max_buffer_len (
        run_all limits
          (record { client = s; buffer = buffer; buffer_len = buffer_len; messages = [] })))

-- `m_client_states`
abbrev pub ClientStates : Type 0
ClientStates = List (ℕ × HttpStreamState)

-- `m_client_states[id]`, where a missing entry is made.
unfoldable pub client_state : ℕ → ClientStates → HttpStreamState
client_state id [] = initial_state
client_state id ((j, s) ∷ rest) = if j == id then s else client_state id rest

unfoldable pub set_client_state : ℕ → HttpStreamState → ClientStates → ClientStates
set_client_state id t [] = (id, t) ∷ []
set_client_state id t ((j, s) ∷ rest) =
    if j == id then (j, t) ∷ rest else (j, s) ∷ set_client_state id t rest

unfoldable pub feed :
    (Headers → Headers) → Limits → ClientStates → ℕ → Bytes → ℕ → ℕ → Fed × ClientStates
unfolding client_state set_client_state
feed iterate limits states id buffer buffer_len max_buffer_len =
    let fed =
      feed_client iterate limits (client_state id states) buffer buffer_len max_buffer_len in
    (fed, set_client_state id fed.client states)
