-- ===== src/Http/Assembler/Pieces/Streams.antt =====
-- Requests that arrive in pieces at `HttpAssembler::feed`
-- (src/networking/http/HttpAssembler.cpp).
use mathlib.Core.List.{map}
use pulse_net.Base.{◌+◌, ◌<◌, ◌≡◌, refl, ap, ◌∙◌, false, List, [], ◌++◌, drop, length, arith}
use pulse_net.Base.Bytes.{Bytes, concat}
use pulse_net.Http.Message.{HttpMessage}
use pulse_net.Http.Message.HeaderMap.{Headers}
use pulse_net.Http.Assembler.State.{Limits, initial_state}
use pulse_net.Http.Assembler.Feed.{is_error, feed_client}
use pulse_net.Http.Assembler.Invariant.Loop.{initial_state-IsWellFormed}
use pulse_net.Http.Assembler.Pieces.Synced.{initial_state-IsSynced}
use pulse_net.Http.Assembler.Pieces.Feeding.{feed_pieces, feed_pieces-concat}
use pulse_net.Http.Assembler.Pieces.Answers.{IsWaiting}
use pulse_net.Http.Assembler.Requests.Delivery.{received}
use pulse_net.Http.Assembler.Requests.Pipeline.{
  AreSendable, request_stream, feed_client-request_stream,
}

-- A client in its initial state.
pub initial_state-IsWaiting : (buffer : Bytes) → IsWaiting (length buffer) initial_state buffer 0
unfolding initial_state is_error
initial_state-IsWaiting buffer = record {
  well_formed = initial_state-IsWellFormed (length buffer);
  synced = initial_state-IsSynced;
  going = refl;
  all_read = refl;
  buffer_full = refl;
}

module _ (l : Limits) (iterate : Headers → Headers) where
  -- Requests that the assembler accepts, as `serialize_request` writes them one behind the other,
  -- and whose text is cut anywhere and arrives in these pieces at a client in its initial state with
  -- a buffer that is longer than the text: the calls of `feed`, one for each piece, give these
  -- requests in their order, with the header names in lower case and the first value of a name, and
  -- no error; the client is in the initial state again, and the buffer is empty.
  pub feed_pieces-request_stream :
      (ms : List HttpMessage) (pieces : List Bytes) (buffer : Bytes)
      → AreSendable l iterate ms
      → concat pieces ≡ request_stream l iterate ms
      → length (concat pieces) < length buffer
      → let fed = feed_pieces iterate l (length buffer) initial_state buffer 0 pieces in
        (fed.result.messages ≡ map (received l iterate) ms)
        × (fed.result.error ≡ false)
        × (fed.result.error_message ≡ [])
        × (fed.client ≡ initial_state)
        × (fed.buffer_len ≡ 0)
  feed_pieces-request_stream ms pieces buffer s e h =
      let same =
        feed_pieces-concat iterate l (length buffer) initial_state buffer 0 pieces
          (initial_state-IsWaiting buffer) (omega arith) in
      let text = concat pieces in
      let (rest, whole) =
        feed_client-request_stream l iterate ms s (drop (0 + length text) buffer) (length buffer)
          (omega arith) in
      let behind = drop (0 + length text) buffer in
      let fed = feed_client iterate l initial_state in
      let size : 0 + length text ≡ length text = omega arith in
      let text_whole =
        ap (λ n. fed (text ++ behind) n (length buffer)) size
        ∙ ap (λ w. fed (w ++ behind) (length w) (length buffer)) e
        ∙ whole in
      let (answer, client, len, left) = same in
      (
        ap (λ r. r.messages) answer ∙ ap (λ f. f.result.messages) text_whole,
        ap (λ r. r.error) answer ∙ ap (λ f. f.result.error) text_whole,
        ap (λ r. r.error_message) answer ∙ ap (λ f. f.result.error_message) text_whole,
        client ∙ ap (λ f. f.client) text_whole,
        len ∙ ap (λ f. f.buffer_len) text_whole,
      )
