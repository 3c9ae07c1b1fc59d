-- ===== src/Tests/Pipelining.antt =====
-- Requests that `HttpMessage::serialize` writes, read back by `HttpAssembler::feed`.
use pulse_net.Base.{
  true, false, ◌≡◌, refl, List, [], ◌∷◌, ◌++◌, length, map, arith, inl, inr, some, if◌then◌else◌,
}
use pulse_net.Base.Bytes.{Bytes, codes, equal}
use pulse_net.Utils.Chars.{
  lower, read_digits, digit_value, in_int_range, from_chars, to_lower_ascii,
}
use pulse_net.Http.Types.{HttpStatus, HttpType, HttpMethod, HttpVersion}
use pulse_net.Http.Message.{HttpMessage, add_header, has_header, header_lines, method_name}
use pulse_net.Http.Message.HeaderMap.{Headers, find, emplace}
use pulse_net.Http.Assembler.State.{Limits, initial_state}
use pulse_net.Http.Assembler.HeaderLines.{is_chunked, parse_number}
use pulse_net.Http.Assembler.Feed.{feed_client}
use pulse_net.Http.Assembler.Requests.Headers.{collect}
use pulse_net.Http.Message.Lookup.{joined, add_header_lem}
use pulse_net.Http.Assembler.Requests.Delivery.{IsSendable, received}
use pulse_net.Http.Assembler.Requests.Pipeline.{request_stream, feed_client-request_stream}

abbrev pub same_order : Headers → Headers
same_order h = h

abbrev pub defaults : Limits
defaults = record {
  assemble_chunked_requests = false;
  max_request_line_length = 4096;
  max_total_headers = 8192;
  max_body_memory_buffer = 1048576;
  max_body_size = 104857600;
}

abbrev pub get_request : HttpMessage
get_request = record {
  headers = (codes "Host", codes "a.b") ∷ [];
  type = HttpType.request;
  status = HttpStatus.none;
  method = HttpMethod.get;
  version = HttpVersion.http_1_1;
  body = [];
  uri = codes "/aaa";
}

abbrev pub post_request : HttpMessage
post_request = record {
  headers = (codes "Content-Length", codes "5") ∷ [];
  type = HttpType.request;
  status = HttpStatus.none;
  method = HttpMethod.post;
  version = HttpVersion.http_1_0;
  body = codes "hello";
  uri = codes "/";
}

pub get_request-IsSendable : IsSendable defaults same_order get_request
unfolding method_name header_lines collect is_chunked find emplace to_lower_ascii equal lower
get_request-IsSendable = record {
  method_ok = tt;
  version_ok = tt;
  uri_ne_nil = λ e. absurd cc;
  uri_bytes = omega arith;
  line_fits = omega arith;
  fields_ok = (
    record {
      name_ink = omega arith;
      name_bytes = omega arith;
      value_ink = omega arith;
      value_bytes = omega arith;
    },
    tt,
  );
  headers_fit = omega arith;
  framed = (refl, inl (refl, refl));
}

pub post_request-IsSendable : IsSendable defaults same_order post_request
unfolding method_name header_lines collect is_chunked find emplace to_lower_ascii equal lower
    parse_number from_chars read_digits digit_value in_int_range
post_request-IsSendable = record {
  method_ok = tt;
  version_ok = tt;
  uri_ne_nil = λ e. absurd cc;
  uri_bytes = omega arith;
  line_fits = omega arith;
  fields_ok = (
    record {
      name_ink = omega arith;
      name_bytes = omega arith;
      value_ink = omega arith;
      value_bytes = omega arith;
    },
    tt,
  );
  headers_fit = omega arith;
  framed = (refl, inr (codes "5", 4, refl, refl, refl, omega arith));
}

abbrev requests : List HttpMessage
requests = get_request ∷ post_request ∷ get_request ∷ []

feed_client-request_stream_example :
    (rest : Bytes) × (feed_client same_order defaults initial_state
        (request_stream defaults same_order requests ++ [])
        (length (request_stream defaults same_order requests))
        4096
      ≡ record {
        result = record {
          messages = map (received defaults same_order) requests;
          error = false;
          error_message = [];
        };
        client = initial_state;
        buffer = rest;
        buffer_len = 0;
      })
feed_client-request_stream_example =
    feed_client-request_stream defaults same_order requests
      (get_request-IsSendable, (post_request-IsSendable, (get_request-IsSendable, tt))) [] 4096
      (omega arith)

add_header_lem_example :
    (find (codes "Accept") (add_header get_request (codes "Host") (codes "c")).headers ≡ (
      if equal (codes "Host") (codes "Accept")
      then some (joined (find (codes "Host") get_request.headers) (codes "c"))
      else find (codes "Accept") get_request.headers))
    × (has_header (add_header get_request (codes "Host") (codes "c")) (codes "Accept") ≡ (
        if equal (codes "Host") (codes "Accept")
        then true
        else has_header get_request (codes "Accept")))
add_header_lem_example = add_header_lem get_request (codes "Host") (codes "c") (codes "Accept")
