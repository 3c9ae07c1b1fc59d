-- ===== src/Tests/Serving.antt =====
-- The server's client table and its messages.
use pulse_net.Base.{
  ℕ, true, ◌≡◌, ◌≢◌, ◌+◌, ◌∷◌, refl, none, some, [], ◌++◌, ◌==◌, if◌then◌else◌, arith,
}
use pulse_net.Base.Int.{ℤ, ◌-ℤ◌}
use pulse_net.Base.Bytes.{concat, Bytes, codes}
use pulse_net.Server.Client.{Client, make_client, increase_reference_count}
use pulse_net.Server.Table.{empty_table, slot, add_client}
use pulse_net.Server.Table.Laws.{IsConsistent, empty_table-IsConsistent, add_client-slot}
use pulse_net.Server.Sending.{front, outgoing, send_to}
use pulse_net.Server.Sending.Outgoing.{AreShort, outgoing-parts}
use pulse_net.Server.Sending.Delivery.{send_to-accepted}
use pulse_net.Server.Events.{
  ServerState, Completion, initial_server, on_connection, on_completion, connected, completed,
  Reachable, started, stepped,
}
use pulse_net.Server.Events.Consistency.{Reachable-IsConsistent}
use pulse_net.Tests.Pipelining.{same_order, defaults}

abbrev pub address : Bytes
address = codes "127.0.0.1"

abbrev pub one_connected : ServerState
one_connected = on_connection 4096 5000 address 7 [] true true (initial_server 2)

abbrev pub one_received : ServerState
one_received = on_completion 4096 true 0 (Completion.received (codes "GET")) one_connected

abbrev pub new_client : Client
new_client = record (make_client 0 5000 address 4096 7 []) {
  reference_count = ℤ.pos 1;
  pending_receives = 1;
}

pub one_received-Reachable : Reachable same_order defaults 4096 2 one_received
unfolding initial_server on_connection slot make_client add_client
one_received-Reachable =
    stepped one_connected one_received
      (stepped (initial_server 2) one_connected started
        (connected (initial_server 2) 5000 address 7 [] true true))
      (completed one_connected true 0 (Completion.received (codes "GET")) new_client refl
        (omega arith, omega arith))

Reachable-IsConsistent_example : IsConsistent one_received.table
Reachable-IsConsistent_example =
    Reachable-IsConsistent same_order defaults 4096 2 one_received one_received-Reachable

outgoing-parts_example :
    (concat (outgoing 3 (codes "abcdefgh")) ≡ codes "abcdefgh")
    × AreShort 3 (outgoing 3 (codes "abcdefgh"))
    × (outgoing 3 (codes "abcdefgh") ≢ [])
outgoing-parts_example = outgoing-parts 3 (codes "abcdefgh") (omega arith)

add_client-slot_example :
    (slot empty_table.client_list (add_client 5000 address 7 4096 [] empty_table).0 ≡ none)
    × ((j : ℕ)
        → slot (add_client 5000 address 7 4096 [] empty_table).1.client_list j ≡ (
            if (add_client 5000 address 7 4096 [] empty_table).0 == j
            then some (
                increase_reference_count (
                  make_client
                    (add_client 5000 address 7 4096 [] empty_table).0
                    5000
                    address
                    4096
                    7
                    []))
            else slot empty_table.client_list j))
add_client-slot_example =
    add_client-slot 5000 address 7 4096 [] empty_table empty_table-IsConsistent

abbrev idle_client : Client
idle_client = make_client 0 5000 address 3 7 []

send_to-accepted_example :
    (send_to 3 true (codes "abcde") idle_client ≡ record idle_client {
      outbound_message_queue = idle_client.outbound_message_queue ++ outgoing 3 (codes "abcde");
      is_sending = true;
      reference_count =
          if idle_client.is_sending
          then idle_client.reference_count -ℤ ℤ.pos 1
          else idle_client.reference_count;
      pending_sends =
          if idle_client.is_sending
          then idle_client.pending_sends
          else idle_client.pending_sends + 1;
      transmitted =
          if idle_client.is_sending
          then idle_client.transmitted
          else idle_client.transmitted
            ++ front (idle_client.outbound_message_queue ++ outgoing 3 (codes "abcde")) ∷ [];
    })
    × AreShort 3 (send_to 3 true (codes "abcde") idle_client).outbound_message_queue
send_to-accepted_example =
    send_to-accepted 3 (codes "abcde") idle_client (omega arith) (unfold make_client in tt)
