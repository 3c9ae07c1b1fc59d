-- ===== src/Program/Serving.antt =====
-- What the callback of the pool in src/PulseNet.cpp sends for a request.
use mathlib.Core.List.{append-nil}
use pulse_net.Base.{
  ℕ, ◌<◌, Bool, true, false, ◌≡◌, refl, sym, ap, ◌∙◌, Option, none, some, List, [], ◌∷◌, ◌++◌,
  length, ◌⊎◌, inl, inr, ◌==◌, arith,
}
use pulse_net.Base.Bytes.{Bytes, codes}
use pulse_net.Utils.Chars.{to_string}
use pulse_net.Utils.Token.{
  span, skip_while, quoted_span, trim_end, token_at, element_is, contains_from, contains_token,
}
use pulse_net.Http.Message.{HttpMessage, header_contains_value}
use pulse_net.Http.Message.HeaderMap.{find}
use pulse_net.Server.Client.{Client}
use pulse_net.Server.Table.{slot}
use pulse_net.Server.Table.Laws.{IsConsistent}
use pulse_net.Server.Sending.Stream.{stream}
use pulse_net.Server.Events.{ServerState, Request}
use pulse_net.Server.Events.Consistency.{some-injective}
use pulse_net.Server.Events.Serving.{AreServed}
use pulse_net.Server.Events.Stream.{send-stream}
use pulse_net.Program.{response, is_answered, respond, next_of, serve_found, serve}

abbrev pub answer_body : Bytes
answer_body = codes "{\n\"message\" : \"Message received!\"\n}"

-- A response with its body, and the length of it.
abbrev pub answer_text : Bytes
answer_text =
    codes "HTTP/1.1 200 OK\r\nContent-Type: application/json\r\nContent-Length: "
    ++ (to_string (length answer_body) ++ (codes "\r\n\r\n" ++ answer_body))

same_text : response ≡ answer_text
unfolding to_string
same_text = refl

-- What is sent for a request with this transfer coding.
abbrev pub answer_to : Option Bytes → Bytes
answer_to none = answer_text
answer_to (some coding) = []

-- No transfer coding, or a body that arrives in chunks, of which this is one that is not empty.
abbrev pub IsPlain : Option Bytes → Bytes → Type 0
IsPlain coding body = (coding ≡ none) ⊎ ((coding ≡ some (codes "chunked")) × (0 < length body))

is_answered-plain :
    (message : HttpMessage)
    → find (codes "transfer-encoding") message.headers ≡ none
    → is_answered message ≡ true
unfolding is_answered header_contains_value
is_answered-plain message e = rw (header_contains_value, e) refl

chunked_itself : contains_token (codes "chunked") (codes "chunked") ≡ true
unfolding span skip_while quoted_span trim_end token_at element_is contains_from contains_token
chunked_itself = refl

is_answered-chunk :
    (message : HttpMessage)
    → find (codes "transfer-encoding") message.headers ≡ some (codes "chunked")
    → 0 < length message.body
    → is_answered message ≡ false
unfolding is_answered header_contains_value
is_answered-chunk message e h =
    let some_body : (length message.body == 0) ≡ false = ground arith in
    rw (header_contains_value, e, chunked_itself, some_body) refl

some-eq : (c d : Client) → some c ≡ some d → c ≡ d
some-eq c d e = cc

module _ (len : ℕ) (b : Bool) (request : Request) (s : ServerState) (c d : Client) where
  -- The response goes to the client of the request, behind what it is sent.
  respond-answered :
      0 < len
      → IsConsistent s.table
      → AreServed len s.table
      → is_answered request.message ≡ true
      → slot s.table.client_list request.client.id ≡ some c
      → slot (respond len b request s).table.client_list request.client.id ≡ some d
      → stream d ≡ stream c ++ answer_text
  unfolding respond
  respond-answered h k v is_so e f =
      send-stream len request.client.id b response s.table c d h k v e (rw is_so at f)
      ∙ ap (λ (w : Bytes). stream c ++ w) same_text

  respond-silent :
      is_answered request.message ≡ false
      → slot s.table.client_list request.client.id ≡ some c
      → slot (respond len b request s).table.client_list request.client.id ≡ some d
      → stream d ≡ stream c ++ []
  unfolding respond
  respond-silent not_so e f =
      ap stream (some-eq d c (sym (rw not_so at f) ∙ e)) ∙ sym (append-nil (stream c))

respond-requests :
    (len : ℕ) (b : Bool) (request : Request) (s : ServerState)
    → (respond len b request s).requests ≡ s.requests
unfolding respond
respond-requests len b request s = ground arith

-- In a consistent table whose references are counted right, with a buffer of one byte or more, a round
-- of the application takes the first request from the queue. When it has no transfer coding, its
-- client, if it is there before and behind the round, is sent one response with a body and the length
-- of this body, behind all that it was sent before, also when the system refuses the operation; when
-- the coding is `chunked` and the body is not empty, the client is sent nothing.
pub serve-stream :
    (len : ℕ) (b : Bool) (coding : Option Bytes) (request : Request) (more : List Request)
    (s t : ServerState) (c d : Client)
    → 0 < len
    → IsConsistent s.table
    → AreServed len s.table
    → s.requests ≡ request ∷ more
    → find (codes "transfer-encoding") request.message.headers ≡ coding
    → IsPlain coding request.message.body
    → slot s.table.client_list request.client.id ≡ some c
    → serve len b s ≡ some t
    → slot t.table.client_list request.client.id ≡ some d
    → (t.requests ≡ more) × (stream d ≡ stream c ++ answer_to coding)
unfolding serve serve_found next_of
serve-stream len b coding request more s t c d h k v queue found plain e served f =
    let u : ServerState = record s { requests = more } in
    let taken : some (respond len b request u) ≡ some t =
      sym (ap (λ rs. serve_found len b (next_of rs s)) queue) ∙ served in
    let same : respond len b request u ≡ t = some-injective _ t taken in
    let g : slot (respond len b request u).table.client_list request.client.id ≡ some d =
      ap (λ (x : ServerState). slot x.table.client_list request.client.id) same ∙ f in
    (
      sym (ap (λ (x : ServerState). x.requests) same) ∙ respond-requests len b request u,
      elim plain [
        | inl none_there ↦
            respond-answered len b request u c d h k v
              (is_answered-plain request.message (found ∙ none_there)) e g
            ∙ ap (λ o. stream c ++ answer_to o) (sym none_there)
        | inr (chunked, some_body) ↦
            respond-silent len b request u c d
              (is_answered-chunk request.message (found ∙ chunked) some_body) e g
            ∙ ap (λ o. stream c ++ answer_to o) (sym chunked)
      ],
    )
