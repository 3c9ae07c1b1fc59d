-- ===== src/Program.antt =====
-- src/PulseNet.cpp: what a worker of the application does with a request, and `next` of
-- src/networking/TCPServer.h.
pub mod Serving
pub mod Main
pub mod Exits
use pulse_net.Base.{
  ℕ, Bool, ◌&&◌, ◌||◌, not, Option, none, some, List, [], ◌∷◌, ◌==◌, ◌++◌, length, if◌then◌else◌,
}
use pulse_net.Base.Bytes.{Bytes, codes}
use pulse_net.Http.Message.{HttpMessage, header_contains_value}
use pulse_net.Server.Sending.{send}
use pulse_net.Server.Events.{ServerState, Request}

abbrev pub response : Bytes
response =
    codes "HTTP/1.1 200 OK"
    ++ 13 ∷ 10 ∷ codes "Content-Type: application/json"
    ++ 13 ∷ 10 ∷ codes "Content-Length: 35"
    ++ 13 ∷ 10 ∷ 13 ∷ 10 ∷ codes "{"
    ++ 10 ∷ b'"' ∷ codes "message"
    ++ b'"' ∷ codes " : "
    ++ b'"' ∷ codes "Message received!"
    ++ b'"' ∷ 10 ∷ codes "}"

-- The test under which the request is answered.
unfoldable pub is_answered : HttpMessage → Bool
unfolding header_contains_value
is_answered message =
    let is_chunked = header_contains_value message (codes "transfer-encoding") (codes "chunked") in
    is_chunked && length message.body == 0 || not is_chunked

-- The callback of the thread pool on the request that `next` took.
unfoldable pub respond : ℕ → Bool → Request → ServerState → ServerState
unfolding is_answered
respond len accepted request s =
    if is_answered request.message
    then record s { table = send len accepted request.client.id response s.table }
    else s

-- `next`, which waits while there is no request.
unfoldable pub next_of : List Request → ServerState → Option (Request × ServerState)
next_of [] s = none
next_of (request ∷ more) s = some (request, record s { requests = more })

abbrev pub next : ServerState → Option (Request × ServerState)
next s = next_of s.requests s

-- On what `next` returned.
unfoldable pub serve_found : ℕ → Bool → Option (Request × ServerState) → Option ServerState
unfolding respond
serve_found len accepted none = none
serve_found len accepted (some (request, s)) = some (respond len accepted request s)

-- A round of the pool; `none` while there is no request.
unfoldable pub serve : ℕ → Bool → ServerState → Option ServerState
unfolding serve_found
serve len accepted s = serve_found len accepted (next s)
