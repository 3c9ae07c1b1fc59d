-- ===== src/Http/Assembler/Content.antt =====
-- src/networking/http/HttpAssembler.cpp: the cases of the `switch` that read a body, or a chunked
-- body, each chunk of which is a message of its own. A moved-from map or string is empty.
use pulse_net.Base.{
  ℕ, ◌+◌, ◌-◌, Bool, true, false, ◌&&◌, ◌||◌, none, some, [], ◌∷◌, ◌++◌, ltb, leb, ◌==◌,
  if◌then◌else◌, take, drop,
}
use pulse_net.Base.Int.{ℤ, ◌+ℤ◌, leb_ℤ, eq_ℤ, pos_part}
use pulse_net.Base.Bytes.{Bytes, byte_at, slice}
use pulse_net.Utils.Chars.{parse_hexadecimal}
use pulse_net.Http.Message.{make_request}
use pulse_net.Http.Assembler.State.{
  HttpState, HttpStreamState, Limits, Machine, Flow, leave, again, fail, go_to, emit, drop_read,
  reset_state,
}

abbrev is_empty : Bytes → Bool
is_empty [] = true
is_empty (x ∷ xs) = false

-- The content that is complete at `pos`: `count` bytes of the buffer, or, where earlier parts of it
-- were put by, those and the first `pos + 1` bytes from `i_start` on.
unfoldable pub content : ℤ → Machine → Bytes
content count m =
    let s = m.client in
    if is_empty s.body
    then take (pos_part count) (drop s.i_start m.buffer)
    else s.body ++ take (s.pos + 1) (drop s.i_start m.buffer)

-- `case STATE_PARSE_BODY`
unfoldable pub body : Limits → Machine → Flow
unfolding content drop_read reset_state
body limits m =
    let s = m.client in
    let sent =
      emit (make_request s.http_version s.method s.uri s.headers (content s.body_length m)) m in
    let rest = drop_read sent in
    if ltb limits.max_body_size s.length_counter
    then leave (record m { client = fail s })
    else if eq_ℤ (ℤ.pos s.length_counter) s.body_length
    then again (record rest { client = reset_state s })
    else leave m

-- The length of the next chunk; `length > 0` fails for 0 only, as the digits have no sign.
unfoldable pub start_chunk : Limits → ℤ → HttpStreamState → HttpStreamState
start_chunk limits n s =
    if leb_ℤ n (ℤ.pos limits.max_body_memory_buffer)
    then if leb_ℤ n (ℤ.pos 0)
      then record (go_to HttpState.parse_end_of_chunked_request s) {
        current_chunk_length = ℤ.pos 0;
      }
      else record (go_to HttpState.parse_chunk s) {
        current_chunk_length = n;
        body_length = s.body_length +ℤ n;
        body = [];
        length_counter = 0;
      }
    else fail s

abbrev is_chunk_size_byte : ℕ → Bool
is_chunk_size_byte c =
    (leb b'A' c && leb c b'F')
    || (leb b'a' c && leb c b'f')
    || (leb b'0' c && leb c b'9')
    || c == b'\r'

-- `case STATE_PARSE_CHUNK_SIZE`
unfoldable pub chunk_size : Limits → Bytes → ℕ → HttpStreamState → HttpStreamState
unfolding start_chunk
chunk_size limits buffer c s =
    if ltb s.i_start s.i_end && c == b'\n' && byte_at buffer (s.pos - 1) == b'\r'
    then elim (parse_hexadecimal (slice buffer s.i_start (s.i_end - 1))) [
      | none ↦ fail s
      | some n ↦ start_chunk limits n s
    ]
    else if is_chunk_size_byte c
    then record s { i_end = s.i_end + 1 }
    else fail s

-- A chunk is complete and becomes a message.
unfoldable pub finish_chunk : Machine → Flow
unfolding content drop_read
finish_chunk m =
    let s = m.client in
    let sent =
      emit (make_request s.http_version s.method s.uri s.headers (content s.current_chunk_length m))
        m in
    let rest = drop_read sent in
    again (record rest {
      client = record s {
        headers = [];
        body = [];
        pos = 0;
        i_start = 0;
        i_end = 0;
        current_chunk_length = ℤ.pos 0;
        state = HttpState.parse_chunk_skip_line;
      };
    })

-- `case STATE_PARSE_CHUNK`
unfoldable pub chunk : Limits → Machine → Flow
unfolding finish_chunk
chunk limits m =
    let s = record m.client { i_end = m.client.i_end + 1 } in
    let n = record m { client = s } in
    if eq_ℤ (ℤ.pos s.length_counter) s.current_chunk_length
    then if limits.assemble_chunked_requests then leave n else finish_chunk n
    else if ltb limits.max_body_size s.length_counter
    then leave (record m { client = fail s })
    else leave n

-- The test for the second byte of a CR LF.
abbrev is_line_end : Bytes → ℕ → HttpStreamState → Bool
is_line_end buffer c s =
    s.i_end + 1 - s.i_start == 2 && c == b'\n' && byte_at buffer (s.pos - 1) == b'\r'

abbrev is_line_end_part : ℕ → HttpStreamState → Bool
is_line_end_part c s = ltb (s.i_end + 1 - s.i_start) 2 && (c == b'\n' || c == b'\r')

-- `case STATE_PARSE_CHUNK_SKIP_LINE`
unfoldable pub chunk_skip_line : Bytes → ℕ → HttpStreamState → HttpStreamState
chunk_skip_line buffer c s =
    if is_line_end buffer c s
    then record (go_to HttpState.parse_chunk_size s) { current_chunk_length = ℤ.pos 0 }
    else if is_line_end_part c s
    then record s { i_end = s.i_end + 1 }
    else fail s

-- `case STATE_PARSE_END_OF_CHUNKED_REQUEST`
unfoldable pub end_of_chunked_request : ℕ → Machine → Flow
unfolding drop_read reset_state
end_of_chunked_request c m =
    let s = m.client in
    let sent = emit (make_request s.http_version s.method s.uri s.headers []) m in
    let rest = drop_read sent in
    if is_line_end m.buffer c s
    then again (record rest { client = reset_state s })
    else if is_line_end_part c s
    then leave (record m { client = record s { i_end = s.i_end + 1 } })
    else leave (record m { client = fail s })
