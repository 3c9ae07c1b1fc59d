-- ===== src/Tests/References.antt =====
-- The references of a client and the bytes that it is sent, on one connection.
use pulse_net.Base.{◌≡◌, true, false, refl, inl, none, some, [], ◌∷◌, ◌++◌, arith}
use pulse_net.Base.Int.{ℤ}
use pulse_net.Base.Bytes.{codes, equal}
use pulse_net.Server.Client.{Client, make_client}
use pulse_net.Server.Table.{slot, add_client}
use pulse_net.Server.Sending.{send}
use pulse_net.Server.Sending.Stream.{stream}
use pulse_net.Server.Events.{
  ServerState, Reachable, started, stepped, connected, answered, initial_server, on_connection,
  Completion, on_completion, Request, create_request,
}
use pulse_net.Server.Events.Consistency.{Reachable-IsConsistent}
use pulse_net.Server.Events.References.{Reachable-AreServed}
use pulse_net.Server.Events.Stream.{send-stream, on_completion-stream}
use pulse_net.Http.Message.{header_contains_value}
use pulse_net.Http.Message.HeaderMap.{find}
use pulse_net.Program.{response, is_answered, respond, next_of, serve_found, serve}
use pulse_net.Program.Serving.{answer_to, serve-stream}
use pulse_net.Tests.Pipelining.{same_order, defaults, get_request}
use pulse_net.Tests.Serving.{address, one_connected, new_client}

one_connected-Reachable : Reachable same_order defaults 4096 2 one_connected
one_connected-Reachable =
    stepped (initial_server 2) one_connected started
      (connected (initial_server 2) 5000 address 7 [] true true)

abbrev answered_client : Client
answered_client = record new_client {
  outbound_message_queue = codes "HTTP" ∷ [];
  is_sending = true;
  reference_count = ℤ.pos 2;
  pending_sends = 1;
  transmitted = codes "HTTP" ∷ [];
}

abbrev one_answered : ServerState
one_answered = record one_connected { table = send 4096 true 0 (codes "HTTP") one_connected.table }

one_answered-Reachable : Reachable same_order defaults 4096 2 one_answered
one_answered-Reachable =
    stepped one_connected one_answered one_connected-Reachable
      (answered one_connected true 0 (codes "HTTP"))

one_answered-slot : slot one_answered.table.client_list 0 ≡ some answered_client
unfolding initial_server on_connection slot make_client add_client send
one_answered-slot = refl

one_connected-slot : slot one_connected.table.client_list 0 ≡ some new_client
unfolding initial_server on_connection slot make_client add_client
one_connected-slot = refl

send-stream_example : stream answered_client ≡ stream new_client ++ codes "HTTP"
send-stream_example =
    send-stream 4096 0 true (codes "HTTP") one_connected.table new_client answered_client
      (omega arith)
      (Reachable-IsConsistent same_order defaults 4096 2 one_connected one_connected-Reachable)
      (Reachable-AreServed same_order defaults 4096 (omega arith) 2 one_connected
        one_connected-Reachable)
      one_connected-slot one_answered-slot

abbrev drained_client : Client
drained_client = record answered_client {
  outbound_message_queue = [];
  is_sending = false;
  reference_count = ℤ.pos 1;
  pending_sends = 0;
}

one_drained-slot :
    slot (on_completion 4096 true 0 Completion.sent one_answered).table.client_list 0
    ≡ some drained_client
unfolding initial_server on_connection on_completion slot make_client add_client send
one_drained-slot = refl

on_completion-stream_example : stream drained_client ≡ stream answered_client
unfolding make_client
on_completion-stream_example =
    on_completion-stream 4096 0 true one_answered answered_client drained_client
      (Reachable-IsConsistent same_order defaults 4096 2 one_answered one_answered-Reachable)
      (Reachable-AreServed same_order defaults 4096 (omega arith) 2 one_answered
        one_answered-Reachable)
      one_answered-slot (omega arith) one_drained-slot

abbrev asked : Request
asked = create_request new_client get_request

abbrev one_asked : ServerState
one_asked = record one_connected { requests = asked ∷ [] }

abbrev served_client : Client
served_client = record new_client {
  outbound_message_queue = response ∷ [];
  is_sending = true;
  reference_count = ℤ.pos 2;
  pending_sends = 1;
  transmitted = response ∷ [];
}

abbrev one_served : ServerState
one_served = record one_connected { table = send 4096 true 0 response one_connected.table }

one_served-slot : slot one_served.table.client_list 0 ≡ some served_client
unfolding initial_server on_connection slot make_client add_client send
one_served-slot = refl

asked-plain : find (codes "transfer-encoding") get_request.headers ≡ none
unfolding find equal
asked-plain = refl

one_asked-served : serve 4096 true one_asked ≡ some one_served
unfolding serve serve_found respond is_answered header_contains_value next_of create_request
    initial_server on_connection slot make_client add_client
one_asked-served = rw (header_contains_value, asked-plain) refl

serve-stream_example :
    (one_served.requests ≡ []) × (stream served_client ≡ stream new_client ++ answer_to none)
unfolding make_client create_request initial_server on_connection slot add_client
serve-stream_example =
    serve-stream 4096 true none asked [] one_asked one_served new_client served_client (omega arith)
      (Reachable-IsConsistent same_order defaults 4096 2 one_connected one_connected-Reachable)
      (Reachable-AreServed same_order defaults 4096 (omega arith) 2 one_connected
        one_connected-Reachable)
      refl asked-plain (inl refl) one_connected-slot one_asked-served one_served-slot
