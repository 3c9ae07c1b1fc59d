-- ===== src/Tests/Pieces.antt =====
-- Streams that reach `HttpAssembler::feed` in pieces.
use pulse_net.Base.{◌+◌, ◌<◌, ◌≡◌, refl, false, List, [], ◌∷◌, length, map, replicate, arith}
use pulse_net.Base.Bytes.{Bytes, codes, concat}
use pulse_net.Http.Message.{serialize_request, method_name, header_lines}
use pulse_net.Http.Assembler.State.{initial_state}
use pulse_net.Http.Assembler.Feed.{feed_client}
use pulse_net.Http.Assembler.Requests.Delivery.{received}
use pulse_net.Http.Assembler.Requests.Pipeline.{request_stream}
use pulse_net.Http.Assembler.Pieces.Feeding.{feed_pieces, feed_pieces-concat}
use pulse_net.Http.Assembler.Pieces.Answers.{IsAlike, IsWaiting, stored}
use pulse_net.Http.Assembler.Pieces.Streams.{initial_state-IsWaiting, feed_pieces-request_stream}
use pulse_net.Http.Assembler.Pieces.Waiting.{feed_client-IsWaiting}
use pulse_net.Tests.Pipelining.{
  same_order, defaults, get_request, post_request, get_request-IsSendable, post_request-IsSendable,
}

abbrev pub memory : Bytes
memory = replicate 128 0

-- Two requests; the second piece ends one and begins the next.
abbrev pub arrivals : List Bytes
arrivals =
    codes "GET /aa"
    ∷ codes "a HTTP/1.1\r\nHost: "
    ∷ codes "a.b\r\n\r\nPOST / HTTP/1.0\r\nConte"
    ∷ codes "nt-Length: 5\r\n\r\nhel"
    ∷ codes "lo"
    ∷ []

pub arrivals-text :
    concat arrivals ≡ request_stream defaults same_order (get_request ∷ post_request ∷ [])
unfolding request_stream serialize_request method_name header_lines
arrivals-text = refl

feed_pieces-request_stream_example :
    let fed = feed_pieces same_order defaults 128 initial_state memory 0 arrivals in
    (fed.result.messages ≡ map (received defaults same_order) (get_request ∷ post_request ∷ []))
    × (fed.result.error ≡ false)
    × (fed.result.error_message ≡ [])
    × (fed.client ≡ initial_state)
    × (fed.buffer_len ≡ 0)
feed_pieces-request_stream_example =
    feed_pieces-request_stream defaults same_order (get_request ∷ post_request ∷ []) arrivals memory
      (get_request-IsSendable, (post_request-IsSendable, tt)) arrivals-text (omega arith)

abbrev broken : List Bytes
broken = codes "GET / HTTP/1.1\r\nHost" ∷ codes ":a\r\n\r\nBAD" ∷ codes " /\r\n" ∷ []

feed_pieces-concat_example :
    IsAlike (feed_pieces same_order defaults 128 initial_state memory 0 broken) (
      feed_client same_order defaults initial_state
        (stored memory 0 (concat broken))
        (0 + length (concat broken))
        128)
feed_pieces-concat_example =
    feed_pieces-concat same_order defaults 128 initial_state memory 0 broken
      (initial_state-IsWaiting memory) (omega arith)

abbrev small : Bytes
small = replicate 12 0

feed_client-IsWaiting_example :
    let fed =
      feed_client same_order defaults initial_state
        (stored small 0 (codes "GET /aaaaaaa"))
        (0 + 12)
        12 in
    IsWaiting 12 fed.client fed.buffer fed.buffer_len × (fed.buffer_len < 12)
feed_client-IsWaiting_example =
    feed_client-IsWaiting same_order 12 defaults initial_state small 0 (codes "GET /aaaaaaa")
      (initial_state-IsWaiting small) (omega arith) (omega arith)
