-- ===== src/Http/Assembler/HeaderLines.antt =====
-- src/networking/http/HttpAssembler.cpp: `parseNumber`, and the cases of the `switch` that read
-- header lines and choose how the body is framed.
use pulse_net.Base.{
  ℕ, zero, suc, ◌+◌, ◌-◌, Bool, false, ◌&&◌, Option, none, some, ltb, ◌==◌, if◌then◌else◌, length,
}
use pulse_net.Base.Int.{ℤ, leb_ℤ}
use pulse_net.Base.Bytes.{Bytes, codes, byte_at, slice}
use pulse_net.Utils.Chars.{to_lower_ascii, from_chars}
use pulse_net.Utils.Token.{contains_token}
use pulse_net.Http.Message.{make_request_no_body}
use pulse_net.Http.Message.HeaderMap.{Headers, find, emplace}
use pulse_net.Http.Assembler.State.{
  HttpState, HttpStreamState, Limits, Machine, Flow, leave, again, fail, ascii_step, go_to, emit,
  drop_read, reset_state,
}

-- `none` for a result of `false`; the caller's `length` then stays 0.
unfoldable pub parse_number : Bytes → Option ℤ
unfolding from_chars
parse_number s =
    let n = length s in
    if ltb 2 n && byte_at s 0 == b'"' && byte_at s (n - 1) == b'"'
    then from_chars 10 (slice s 1 (n - 1))
    else from_chars 10 s

-- `while (buffer[a] == ' ' && a < b) a++`, on the `b - a` places that are left.
unfoldable pub skip_spaces : Bytes → ℕ → ℕ → ℕ
skip_spaces buffer a zero = a
skip_spaces buffer a (suc n) =
    let rest = skip_spaces buffer (a + 1) n in if byte_at buffer a == b' ' then rest else a

-- `while (buffer[b] == ' ' && a < b) b--`, on the `n` places between `a` and `b = a + n`.
unfoldable pub drop_spaces : Bytes → ℕ → ℕ → ℕ
drop_spaces buffer a zero = a
drop_spaces buffer a (suc n) =
    if byte_at buffer (a + suc n) == b' ' then drop_spaces buffer a n else a + suc n

-- Both loops, on `i_start` and `i_end`.
unfoldable pub trim : Bytes → HttpStreamState → HttpStreamState
unfolding skip_spaces drop_spaces
trim buffer s =
    let a = skip_spaces buffer s.i_start (s.i_end - s.i_start) in
    record s { i_start = a; i_end = drop_spaces buffer a (s.i_end - a) }

-- A `:` behind a name: the name must not be blank.
unfoldable pub end_of_name : HttpStreamState → HttpStreamState
end_of_name s =
    if ltb s.i_start s.i_end
    then record (go_to HttpState.parse_header_value s) {
      header_name_start = s.i_start;
      header_name_end = s.i_end;
    }
    else fail s

-- The length that the `content-length` header gives.
unfoldable pub start_body : Limits → Option ℤ → HttpStreamState → HttpStreamState
start_body limits none s = fail s
start_body limits (some n) s =
    if leb_ℤ n (ℤ.pos limits.max_body_size)
    then record (go_to HttpState.parse_body s) { body_length = n; length_counter = 0 }
    else fail s

-- `it != headers.end() && Utils::containsToken(it->second, "chunked")`
unfoldable pub is_chunked : Headers → Bool
unfolding find
is_chunked headers = elim (find (codes "transfer-encoding") headers) [
  | none ↦ false
  | some value ↦ contains_token value (codes "chunked")
]

-- NO BODY: the message is complete.
unfoldable pub finish_no_body : Machine → Flow
unfolding drop_read reset_state
finish_no_body m =
    let s = m.client in
    let sent = emit (make_request_no_body s.http_version s.method s.uri s.headers) m in
    let rest = drop_read sent in again (record rest { client = reset_state s })

-- The empty line behind the headers.
unfoldable pub end_of_headers : Limits → Machine → Flow
unfolding find start_body is_chunked finish_no_body
end_of_headers limits m =
    let s = m.client in
    if is_chunked s.headers
    then leave (record m { client = go_to HttpState.parse_chunk_size s })
    else elim (find (codes "content-length") s.headers) [
      | none ↦ finish_no_body m
      | some value ↦ leave (record m { client = start_body limits (parse_number value) s })
    ]

-- `total_headers_counter++`
abbrev pub count_header_byte : HttpStreamState → HttpStreamState
count_header_byte s = record s { total_headers_counter = s.total_headers_counter + 1 }

-- `case STATE_PARSE_HEADER_NAME`. The byte before the buffer is read at position 0, and then the
-- length test fails whatever it holds.
unfoldable pub header_name : Limits → ℕ → Machine → Flow
unfolding trim end_of_name end_of_headers
header_name limits c m =
    let s = count_header_byte m.client in
    let n = record m { client = s } in
    if c == b':' && ltb s.i_start s.i_end
    then leave (record m { client = end_of_name (trim m.buffer s) })
    else if c == b':' && s.i_end - s.i_start == 0
    then leave (record m { client = fail s })
    else if c == b'\n' && byte_at m.buffer (s.pos - 1) == b'\r' && s.i_end - s.i_start == 1
    then end_of_headers limits n
    else if ltb limits.max_total_headers s.total_headers_counter
    then leave (record m { client = fail s })
    else leave (record m { client = ascii_step c s })

-- A header line is complete; `s` is trimmed.
unfoldable pub end_of_value : Bytes → HttpStreamState → HttpStreamState
unfolding emplace to_lower_ascii
end_of_value buffer s =
    let name = slice buffer s.header_name_start s.header_name_end in
    let value = slice buffer s.i_start (s.i_end - 1) in
    if length value == 0 then fail s else record (go_to HttpState.parse_header_name s) {
      headers = emplace (to_lower_ascii name) value s.headers;
      last_checkpoint = ℤ.pos (s.pos + 1);
    }

-- `case STATE_PARSE_HEADER_VALUE`
unfoldable pub header_value : Limits → Bytes → ℕ → HttpStreamState → HttpStreamState
unfolding trim end_of_value
header_value limits buffer c s0 =
    let s = count_header_byte s0 in
    if ltb s.i_start s.i_end && c == b'\n' && byte_at buffer (s.i_end - 1) == b'\r'
    then end_of_value buffer (trim buffer s)
    else if ltb limits.max_total_headers s.total_headers_counter
    then fail s
    else ascii_step c s
