-- ===== src/Http/Assembler/Requests/Pipeline.antt =====
-- Several requests in one buffer of `HttpAssembler::feed`
-- (src/networking/http/HttpAssembler.cpp), the way a client that does not wait for answers sends
-- them.
use mathlib.Core.List.{append_assoc, append-nil, map}
use pulse_net.Base.{
  ℕ, ◌-◌, ◌<◌, ◌≡◌, false, refl, sym, ap, ◌∙◌, List, [], ◌∷◌, ◌++◌, arith, length, length-append,
}
use pulse_net.Base.Bytes.{Bytes}
use pulse_net.Http.Message.{HttpMessage, serialize_request}
use pulse_net.Http.Message.HeaderMap.{Headers}
use pulse_net.Http.Assembler.State.{Limits, initial_state}
use pulse_net.Http.Assembler.Feed.{run_all, after_loop, feed_client, finish_feed}
use pulse_net.Http.Assembler.Progress.{run_all_out}
use pulse_net.Http.Assembler.Scan.{Holds}
use pulse_net.Http.Assembler.Requests.FirstLine.{fresh}
use pulse_net.Http.Assembler.Requests.Delivery.{IsSendable, received, receive_one}

module _ (l : Limits) (iterate : Headers → Headers) where
  abbrev pub AreSendable : List HttpMessage → Type 0
  AreSendable [] = Unit {0}
  AreSendable (message ∷ rest) = IsSendable l iterate message × AreSendable rest

  -- The text of the requests, one behind the other.
  unfoldable pub request_stream : List HttpMessage → Bytes
  request_stream [] = []
  request_stream (message ∷ rest) = serialize_request iterate message ++ request_stream rest

  receive_all :
      (ms : List HttpMessage)
      → AreSendable ms
      → (buffer : Bytes) (len : ℕ) (messages : List HttpMessage)
      → Holds buffer 0 (request_stream ms)
      → length (request_stream ms) ≡ len
      → (rest : Bytes) × (run_all l (fresh l buffer len messages)
          ≡ fresh l rest 0 (messages ++ map (received l iterate) ms))
  unfolding request_stream
  receive_all [] s buffer len messages holds size = (
    buffer,
    run_all_out l (fresh l buffer len messages) (unfold initial_state in omega arith)
        ∙ rw (sym size, append-nil messages) refl,
  )
  receive_all (message ∷ ms) s buffer len messages holds size =
      let text = serialize_request iterate message in
      let more = request_stream ms in
      let whole = length-append text more in
      let (rest, e, behind) =
        receive_one l iterate message s.0 buffer len messages more holds (omega arith) in
      let (last, f) =
        receive_all ms s.1 rest (len - length text) (messages ++ received l iterate message ∷ [])
          behind (omega arith) in
      (
        last,
        e
            ∙ f
            ∙ ap (fresh l last 0) (
                append_assoc messages (received l iterate message ∷ [])
                  (map (received l iterate) ms)),
      )

  -- What the result of `feed` is when the buffer was read to its end.
  feed_done :
      (buffer : Bytes) (messages : List HttpMessage) (capacity : ℕ)
      → 0 < capacity
      → finish_feed iterate (after_loop capacity (fresh l buffer 0 messages)) ≡ record {
        result = record { messages = messages; error = false; error_message = [] };
        client = initial_state;
        buffer = buffer;
        buffer_len = 0;
      }
  unfolding finish_feed after_loop initial_state
  feed_done buffer messages capacity h = ground arith

  -- A buffer that holds requests that the assembler accepts, as `serialize_request` writes them one
  -- behind the other, and that is fed to a client in the initial state, gives these requests in
  -- their order, with the header names in lower case and the first value of a name, and no error.
  -- The client is in the initial state again, and the buffer is empty.
  pub feed_client-request_stream :
      (ms : List HttpMessage)
      → AreSendable ms
      → (stale : Bytes) (capacity : ℕ) → 0 < capacity
      → (rest : Bytes) × (feed_client iterate l initial_state
            (request_stream ms ++ stale)
            (length (request_stream ms))
            capacity
          ≡ record {
            result = record {
              messages = map (received l iterate) ms;
              error = false;
              error_message = [];
            };
            client = initial_state;
            buffer = rest;
            buffer_len = 0;
          })
  unfolding feed_client
  feed_client-request_stream ms s stale capacity h =
      let (rest, e) = receive_all ms s (request_stream ms ++ stale) _ [] (stale, refl) refl in
      (rest, ap (λ m. finish_feed iterate (after_loop capacity m)) e ∙ feed_done rest _ capacity h)
