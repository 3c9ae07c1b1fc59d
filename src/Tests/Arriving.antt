-- ===== src/Tests/Arriving.antt =====
-- A connection whose requests arrive in pieces, from the socket to the queue of requests.
use pulse_net.Base.{List, true, false, ◌≡◌, refl, ap, ◌∙◌, [], ◌∷◌, ◌++◌, map, arith}
use pulse_net.Base.Int.{ℤ}
use pulse_net.Base.Bytes.{Bytes}
use pulse_net.Http.Assembler.State.{initial_state}
use pulse_net.Http.Assembler.Feed.{client_state}
use pulse_net.Http.Assembler.Pieces.Feeding.{feed_pieces}
use pulse_net.Http.Assembler.Pieces.Streams.{feed_pieces-request_stream}
use pulse_net.Http.Assembler.Requests.Delivery.{received}
use pulse_net.Server.Client.{Client, make_client}
use pulse_net.Server.Table.{slot, add_client}
use pulse_net.Server.Events.{ServerState, create_request, initial_server, on_connection}
use pulse_net.Server.Events.Arriving.{IsOpen, IsRound}
use pulse_net.Server.Events.Streaming.{
  Arrival, AreAccepted, Arrive, arrivals-IsRound, arrivals-request_stream,
}
use pulse_net.Tests.Pipelining.{
  same_order, defaults, get_request, post_request, get_request-IsSendable, post_request-IsSendable,
}
use pulse_net.Tests.Pieces.{memory, arrivals, arrivals-text}
use pulse_net.Tests.Serving.{address}

abbrev accepted : ServerState
accepted = on_connection 128 5000 address 7 memory true true (initial_server 2)

abbrev peer : Client
peer = record (make_client 0 5000 address 128 7 memory) {
  reference_count = ℤ.pos 1;
  pending_receives = 1;
}

peer-IsOpen : IsOpen peer accepted
unfolding initial_server on_connection slot make_client add_client
peer-IsOpen = record { there = refl; connected = refl; workers = omega arith; idle = refl }

peer-new : client_state peer.id accepted.client_states ≡ initial_state
unfolding initial_server on_connection slot make_client add_client client_state
peer-new = refl

-- Every piece, with the answer that the next receive is accepted.
abbrev awaited : List Bytes → List Arrival
awaited [] = []
awaited (x ∷ xs) = record { bytes = x; awaiting = true } ∷ awaited xs

arrivals-AreAccepted : AreAccepted (awaited arrivals)
arrivals-AreAccepted = (
  omega arith,
  refl,
  (omega arith, refl, (omega arith, refl, (omega arith, refl, (omega arith, refl, tt)))),
)

arrivals-request_stream_example :
    (d : Client) × (t : ServerState) × Arrive same_order defaults 128 true peer.id
      (awaited arrivals)
      accepted
      t
    × IsOpen d t
    × (d.recv_len ≡ 0)
    × (client_state peer.id t.client_states ≡ initial_state)
    × (t.requests
        ≡ accepted.requests
          ++ map
              (create_request peer)
              (map (received defaults same_order) (get_request ∷ post_request ∷ [])))
arrivals-request_stream_example =
    arrivals-request_stream same_order defaults 128 true (get_request ∷ post_request ∷ [])
      (awaited arrivals) peer accepted peer-IsOpen peer-new (unfold make_client in refl)
      (unfold make_client in refl) (get_request-IsSendable, (post_request-IsSendable, tt))
      arrivals-AreAccepted arrivals-text (omega arith)

arrivals-fine :
    (feed_pieces same_order defaults 128
      (client_state peer.id accepted.client_states)
      peer.recv_buffer
      peer.recv_len
      arrivals).result.error
    ≡ false
unfolding make_client
arrivals-fine =
    ap (λ x. (feed_pieces same_order defaults 128 x memory 0 arrivals).result.error) peer-new
    ∙ (feed_pieces-request_stream defaults same_order (get_request ∷ post_request ∷ []) arrivals
        memory (get_request-IsSendable, (post_request-IsSendable, tt)) arrivals-text
        (omega arith)).1

arrivals-IsRound_example :
    (d : Client) × (t : ServerState) × Arrive same_order defaults 128 true peer.id
      (awaited arrivals)
      accepted
      t
    × IsRound peer accepted
        (feed_pieces same_order defaults 128
          (client_state peer.id accepted.client_states)
          peer.recv_buffer
          peer.recv_len
          arrivals)
        d
        t
arrivals-IsRound_example =
    arrivals-IsRound same_order defaults 128 true (awaited arrivals) peer accepted peer-IsOpen
      arrivals-AreAccepted arrivals-fine
