-- ===== src/Http/Message.antt =====
-- src/networking/http/HttpMessage.h and HttpMessage.cpp: `HttpMessage`.
-- A header map is an association list; `std::unordered_map` visits its entries in an order of its
-- own, which `serialize` takes as the argument `iterate`.
pub mod HeaderMap
pub mod Lookup
use pulse_net.Base.{ℕ, Bool, true, false, Option, none, some, List, [], ◌∷◌, ◌++◌, length}
use pulse_net.Base.Bytes.{Bytes, codes}
use pulse_net.Utils.Chars.{to_string}
use pulse_net.Utils.Token.{contains_token}
use pulse_net.Http.Types.{
  HttpStatus, HttpType, HttpVersion, HttpMethod, status_code, get_status_name,
}
use HeaderMap.{Headers, find, contains, insert_or_assign}

pub record HttpMessage : Type 0 where
  pub headers : Headers
  pub type : HttpType
  pub status : HttpStatus
  pub method : HttpMethod
  pub version : HttpVersion
  pub body : Bytes
  pub uri : Bytes

unfoldable pub add_header : HttpMessage → Bytes → Bytes → HttpMessage
unfolding find insert_or_assign
add_header m name value = elim (find name m.headers) [
  | some old ↦ record m { headers = insert_or_assign name (old ++ (b',' ∷ value)) m.headers }
  | none ↦ record m { headers = insert_or_assign name value m.headers }
]

-- `HttpMessage(HttpVersion, HttpStatus, std::string)`
unfoldable pub make_response : HttpVersion → HttpStatus → Bytes → HttpMessage
unfolding add_header
make_response version status body =
    let fresh : HttpMessage = record {
      headers = [];
      type = HttpType.unknown;
      status = status;
      method = HttpMethod.unknown;
      version = version;
      body = body;
      uri = [];
    } in
    record (add_header fresh (codes "Content-Length") (to_string (length body))) {
      type = HttpType.response;
    }

-- `HttpMessage(HttpVersion, HttpMethod, std::string, std::unordered_map, std::string)`
unfoldable pub make_request : HttpVersion → HttpMethod → Bytes → Headers → Bytes → HttpMessage
make_request version method uri headers body = record {
  headers = headers;
  type = HttpType.request;
  status = HttpStatus.none;
  method = method;
  version = version;
  body = body;
  uri = uri;
}

-- `HttpMessage(HttpVersion, HttpMethod, std::string, std::unordered_map)`
unfoldable pub make_request_no_body : HttpVersion → HttpMethod → Bytes → Headers → HttpMessage
make_request_no_body version method uri headers = record {
  headers = headers;
  type = HttpType.request;
  status = HttpStatus.none;
  method = method;
  version = version;
  body = [];
  uri = uri;
}

unfoldable pub set_http_status : HttpMessage → HttpStatus → HttpMessage
set_http_status m status = record m { status = status }

unfoldable pub set_body : HttpMessage → Bytes → HttpMessage
set_body m body = record m { body = body }

unfoldable pub raw_body : HttpMessage → Bytes
raw_body m = m.body

unfoldable pub has_header : HttpMessage → Bytes → Bool
unfolding contains
has_header m header = contains header m.headers

-- The call in the source is `containsToken(value, it->second)`: the stored value is the token.
unfoldable pub header_contains_value : HttpMessage → Bytes → Bytes → Bool
unfolding find
header_contains_value m header value = elim (find header m.headers) [
  | none ↦ false
  | some stored ↦ contains_token value stored
]

unfoldable pub method_name : HttpMethod → Bytes
method_name HttpMethod.get = codes "GET"
method_name HttpMethod.post = codes "POST"
method_name HttpMethod.put = codes "PUT"
method_name HttpMethod.http_delete = codes "DELETE"
method_name HttpMethod.patch = codes "PATCH"
method_name HttpMethod.trace = codes "TRACE"
method_name HttpMethod.head = codes "HEAD"
method_name HttpMethod.options = codes "OPTIONS"
method_name HttpMethod.connect = codes "CONNECT"
method_name HttpMethod.invalid = codes "INVALID"
method_name HttpMethod.unknown = codes "UNKNOWN"

-- The version as both `switch` statements write it.
unfoldable pub version_name : HttpVersion → Bytes
version_name HttpVersion.http_1_0 = codes "HTTP/1.0"
version_name HttpVersion.http_1_1 = codes "HTTP/1.1"
version_name _ = codes "HTTP/1.1"

abbrev pub crlf : Bytes
crlf = b'\r' ∷ b'\n' ∷ []

unfoldable pub header_lines : Headers → Bytes
header_lines [] = []
header_lines ((name, value) ∷ rest) = name ++ (codes ": " ++ (value ++ (crlf ++ header_lines rest)))

module _ (iterate : Headers → Headers) where
  unfoldable pub serialize_request : HttpMessage → Bytes
  unfolding method_name version_name header_lines
  serialize_request m =
      method_name m.method
      ++ (b' '
          ∷ (m.uri
              ++ (b' '
                  ∷ (version_name m.version
                      ++ (crlf ++ (header_lines (iterate m.headers) ++ (crlf ++ m.body)))))))

  unfoldable pub serialize_response : HttpMessage → Bytes
  unfolding version_name header_lines
  serialize_response m =
      version_name m.version
      ++ (b' '
          ∷ (to_string (status_code m.status)
              ++ (b' '
                  ∷ (get_status_name m.status
                      ++ (crlf ++ (header_lines (iterate m.headers) ++ (crlf ++ m.body)))))))

  serialize_as : HttpType → HttpMessage → Bytes
  unfolding serialize_request serialize_response
  serialize_as HttpType.request m = serialize_request m
  serialize_as HttpType.response m = serialize_response m
  serialize_as HttpType.unknown m = codes "UNKOWN METHOD"

  unfoldable pub serialize : HttpMessage → Bytes
  unfolding serialize_as
  serialize m = serialize_as m.type m
