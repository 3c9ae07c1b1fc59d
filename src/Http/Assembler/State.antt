-- ===== src/Http/Assembler/State.antt =====
-- src/networking/http/HttpAssembler.h: the limits and the state that the assembler keeps for a
-- client; of HttpAssembler.cpp the setters and `resetState`. Buffer positions are never negative
-- and are natural numbers; the fields that hold -1, or a number that the peer sent, are integers.
use pulse_net.Base.{
  ℕ, ◌+◌, Bool, List, [], ◌∷◌, ◌++◌, ltb, leb, ◌==◌, if◌then◌else◌, take, drop, length, ◌-◌,
}
use pulse_net.Base.Int.{ℤ, minus_one}
use pulse_net.Base.Bytes.{Bytes}
use pulse_net.Http.Types.{HttpType, HttpVersion, HttpMethod}
use pulse_net.Http.Message.{HttpMessage}
use pulse_net.Http.Message.HeaderMap.{Headers}

pub data TransferMode : Type 0 where
  unknown default chunked : TransferMode

pub data HttpState : Type 0 where
  start parse_response_or_request parse_response_status parse_request_uri : HttpState
  parse_response_headers_start parse_request_http_version parse_header_name : HttpState
  parse_header_value parse_body parse_chunk_size parse_chunk_skip_line parse_chunk : HttpState
  parse_end_of_chunked_request done error : HttpState

pub record HttpStreamState : Type 0 where
  pub pos : ℕ
  pub i_start : ℕ
  pub i_end : ℕ
  pub header_name_start : ℕ
  pub header_name_end : ℕ
  pub header_value_start : ℕ
  pub header_value_end : ℕ
  pub length_counter : ℕ
  pub total_headers_counter : ℕ
  pub last_checkpoint : ℤ
  pub body_length : ℤ
  pub current_chunk_length : ℤ
  pub transfer_mode : TransferMode
  pub http_version : HttpVersion
  pub headers : Headers
  pub body : Bytes
  pub state : HttpState
  pub method : HttpMethod
  pub type : HttpType
  pub http_code : ℤ
  pub uri : Bytes

-- The member initialisers of `HttpStreamState`.
unfoldable pub initial_state : HttpStreamState
initial_state = record {
  pos = 0;
  i_start = 0;
  i_end = 0;
  header_name_start = 0;
  header_name_end = 0;
  header_value_start = 0;
  header_value_end = 0;
  length_counter = 0;
  total_headers_counter = 0;
  last_checkpoint = minus_one;
  body_length = minus_one;
  current_chunk_length = ℤ.pos 0;
  transfer_mode = TransferMode.unknown;
  http_version = HttpVersion.unknown;
  headers = [];
  body = [];
  state = HttpState.parse_response_or_request;
  method = HttpMethod.unknown;
  type = HttpType.unknown;
  http_code = minus_one;
  uri = [];
}

unfoldable pub reset_state : HttpStreamState → HttpStreamState
reset_state s = record s {
  transfer_mode = TransferMode.unknown;
  body_length = minus_one;
  http_version = HttpVersion.unknown;
  headers = [];
  state = HttpState.parse_response_or_request;
  method = HttpMethod.unknown;
  type = HttpType.unknown;
  http_code = minus_one;
  uri = [];
  i_start = 0;
  i_end = 0;
  header_name_start = 0;
  header_name_end = 0;
  header_value_start = 0;
  header_value_end = 0;
  length_counter = 0;
  total_headers_counter = 0;
  current_chunk_length = ℤ.pos 0;
  last_checkpoint = minus_one;
  body = [];
  pos = 0;
}

-- The members `m_max_...`, and `m_assemble_chunked_requests`. The limits are non-negative.
pub record Limits : Type 0 where
  pub assemble_chunked_requests : Bool
  pub max_request_line_length : ℕ
  pub max_total_headers : ℕ
  pub max_body_memory_buffer : ℕ
  pub max_body_size : ℕ

unfoldable pub default_limits : Bool → Limits
default_limits assemble = record {
  assemble_chunked_requests = assemble;
  max_request_line_length = 4096;
  max_total_headers = 8192;
  max_body_memory_buffer = 1048576;
  max_body_size = 104857600;
}

unfoldable pub set_max_request_line_length : Limits → ℕ → Limits
set_max_request_line_length l n = record l { max_request_line_length = n }

unfoldable pub set_max_request_header_bytes : Limits → ℕ → Limits
set_max_request_header_bytes l n = record l { max_total_headers = n }

unfoldable pub set_max_body_size : Limits → ℕ → Limits
set_max_body_size l n = if ltb n l.max_body_memory_buffer then l else record l { max_body_size = n }

unfoldable pub set_max_body_memory_buffer : Limits → ℕ → Limits
set_max_body_memory_buffer l n =
    if ltb l.max_body_size n then l else record l { max_body_memory_buffer = n }

-- What the loop of `feed` reads and writes.
pub record Machine : Type 0 where
  pub client : HttpStreamState
  pub buffer : Bytes
  pub buffer_len : ℕ
  pub messages : List HttpMessage

-- How a case of the `switch` ends: by `break`, on to the test for STATE_ERROR and `pos++`, or by
-- `continue`.
pub data Flow : Type 0 where
  leave again : Machine → Flow

abbrev pub fail : HttpStreamState → HttpStreamState
fail s = record s { state = HttpState.error }

-- `i_end++` where `c` is ASCII, and an error where it is not.
abbrev pub ascii_step : ℕ → HttpStreamState → HttpStreamState
ascii_step c s = if leb c 127 then record s { i_end = s.i_end + 1 } else fail s

-- `state = st; i_start = i + 1; i_end = i + 1`.
abbrev pub go_to : HttpState → HttpStreamState → HttpStreamState
go_to st s = record s { state = st; i_start = s.pos + 1; i_end = s.pos + 1 }

-- `std::memmove(buffer, buffer + offset, count)`: bytes that it would read past the end of the
-- buffer are left out.
unfoldable pub memmove_front : Bytes → ℕ → ℕ → Bytes
memmove_front buffer offset count =
    let moved = take count (drop offset buffer) in moved ++ drop (length moved) buffer

-- What follows every finished message: drop what was read from the buffer.
unfoldable pub drop_read : Machine → Machine
unfolding memmove_front
drop_read m = if m.client.pos == m.buffer_len - 1 then record m { buffer_len = 0 } else record m {
  buffer = memmove_front m.buffer (m.client.pos + 1) (m.buffer_len - m.client.pos);
  buffer_len = m.buffer_len - m.client.pos - 1;
}

abbrev pub emit : HttpMessage → Machine → Machine
emit message m = record m { messages = m.messages ++ message ∷ [] }
