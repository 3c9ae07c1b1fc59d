-- ===== src/Http/Assembler/Lines.antt =====
-- src/networking/http/HttpAssembler.cpp: `parseMethod`, and the cases of the `switch` that read the
-- first line of a request or a response.
use pulse_net.Base.{ℕ, ◌+◌, ◌-◌, ◌*◌, not, ◌&&◌, ◌||◌, ltb, ◌==◌, if◌then◌else◌, length}
use pulse_net.Base.Int.{ℤ, sub_ℕ, ◌+ℤ◌}
use pulse_net.Base.Bytes.{Bytes, codes, equal, byte_at, slice}
use pulse_net.Utils.Chars.{is_digit}
use pulse_net.Http.Types.{HttpType, HttpVersion, HttpMethod}
use pulse_net.Http.Assembler.State.{HttpState, HttpStreamState, Limits, fail, ascii_step, go_to}

unfoldable pub parse_method : Bytes → HttpMethod
unfolding equal
parse_method part =
    let n = length part in
    if n == 3
    then if equal part (codes "GET")
      then HttpMethod.get
      else if equal part (codes "PUT")
      then HttpMethod.put
      else HttpMethod.invalid
    else if n == 4
    then if equal part (codes "POST")
      then HttpMethod.post
      else if equal part (codes "HEAD")
      then HttpMethod.head
      else HttpMethod.invalid
    else if n == 5
    then if equal part (codes "PATCH")
      then HttpMethod.patch
      else if equal part (codes "TRACE")
      then HttpMethod.trace
      else HttpMethod.invalid
    else if n == 6
    then if equal part (codes "DELETE") then HttpMethod.http_delete else HttpMethod.invalid
    else if n == 7
    then if equal part (codes "OPTIONS")
      then HttpMethod.options
      else if equal part (codes "CONNECT")
      then HttpMethod.connect
      else HttpMethod.invalid
    else HttpMethod.invalid

-- The first word of the line is complete.
unfoldable pub first_word : Bytes → HttpStreamState → HttpStreamState
unfolding equal
first_word part s =
    if equal part (codes "HTTP/1.0")
    then record (go_to HttpState.parse_response_status s) {
      http_version = HttpVersion.http_1_0;
      type = HttpType.response;
    }
    else if equal part (codes "HTTP/1.1")
    then record (go_to HttpState.parse_response_status s) {
      http_version = HttpVersion.http_1_1;
      type = HttpType.response;
    }
    else elim (parse_method part) [
      | HttpMethod.invalid ↦ record s { method = HttpMethod.invalid; state = HttpState.error }
      | method ↦ record (go_to HttpState.parse_request_uri s) {
        method = method;
        type = HttpType.request;
      }
    ]

-- `case STATE_PARSE_RESPONSE_OR_REQUEST`
unfoldable pub response_or_request : Bytes → ℕ → HttpStreamState → HttpStreamState
unfolding first_word
response_or_request buffer c s =
    if c == b' ' && ltb s.i_start s.i_end
    then first_word (slice buffer s.i_start s.i_end) s
    else if ltb 8 s.length_counter
    then fail s
    else ascii_step c s

-- `buffer[k] - '0'`
abbrev digit_at : Bytes → ℕ → ℤ
digit_at buffer k = sub_ℕ (byte_at buffer k) b'0'

-- `buffer[k] - '0'` times a factor.
abbrev scaled_digit_at : ℕ → Bytes → ℕ → ℤ
scaled_digit_at f buffer k = sub_ℕ (byte_at buffer k * f) (b'0' * f)

-- `case STATE_PARSE_RESPONSE_STATUS`. The code is read from the front of the buffer.
unfoldable pub response_status : Limits → Bytes → ℕ → HttpStreamState → HttpStreamState
response_status limits buffer c s =
    if c == b' '
    then if not (s.i_end - s.i_start == 3)
        || not (is_digit (byte_at buffer s.i_start))
        || not (is_digit (byte_at buffer (s.i_start + 1)))
        || not (is_digit (byte_at buffer (s.i_start + 1)))
      then fail s
      else record (go_to HttpState.parse_response_headers_start s) {
        http_code =
            scaled_digit_at 100 buffer 0 +ℤ scaled_digit_at 10 buffer 1 +ℤ digit_at buffer 2;
      }
    else if ltb limits.max_request_line_length s.length_counter
    then fail s
    else if is_digit c
    then record s { i_end = s.i_end + 1 }
    else fail s

-- `case STATE_PARSE_RESPONSE_HEDAERS_START`
unfoldable pub response_headers_start : Limits → Bytes → ℕ → HttpStreamState → HttpStreamState
response_headers_start limits buffer c s =
    if ltb s.i_start s.i_end && c == b'\n' && byte_at buffer s.i_end == b'\r'
    then record (go_to HttpState.parse_header_name s) {
      length_counter = 0;
      last_checkpoint = ℤ.pos (s.pos + 1);
    }
    else if ltb limits.max_request_line_length s.length_counter
    then fail s
    else ascii_step c s

-- `case STATE_PARSE_REQUEST_URI`
unfoldable pub request_uri : Limits → Bytes → ℕ → HttpStreamState → HttpStreamState
request_uri limits buffer c s =
    if c == b' ' && s.i_end - s.i_start == 0
    then fail s
    else if c == b' '
    then record (go_to HttpState.parse_request_http_version s) {
      uri = slice buffer s.i_start s.i_end;
    }
    else if ltb limits.max_request_line_length s.length_counter
    then fail s
    else ascii_step c s

-- The first line of a request is complete.
abbrev start_headers : HttpVersion → HttpStreamState → HttpStreamState
start_headers version s = record (go_to HttpState.parse_header_name s) {
  http_version = version;
  last_checkpoint = ℤ.pos (s.pos + 1);
  length_counter = 0;
}

-- The version that the line ends with.
unfoldable pub last_word : Bytes → HttpStreamState → HttpStreamState
unfolding equal
last_word part s =
    if equal part (codes "HTTP/1.0")
    then start_headers HttpVersion.http_1_0 s
    else if equal part (codes "HTTP/1.1")
    then start_headers HttpVersion.http_1_1 s
    else fail s

-- `case STATE_PARSE_REQUEST_HTTP_VERSION`
unfoldable pub request_http_version : Limits → Bytes → ℕ → HttpStreamState → HttpStreamState
unfolding last_word
request_http_version limits buffer c s =
    if ltb 1 (s.i_end - s.i_start) && c == b'\n' && byte_at buffer (s.i_end - 1) == b'\r'
    then last_word (slice buffer s.i_start (s.i_end - 1)) s
    else if ltb limits.max_request_line_length s.length_counter
    then fail s
    else ascii_step c s
