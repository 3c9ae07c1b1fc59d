-- ===== src/Server/Sending.antt =====
-- src/networking/TCPServer.h: `postReceiveEvent`, `postSendEvent` and `send`. Whether WSARecv or
-- WSASend accepted an operation is an argument. A call of `send` runs under the client's lock.
pub mod Outgoing
pub mod Delivery
pub mod Counting
pub mod Posting
pub mod Stream
use pulse_net.Base.{
  ℕ, zero, suc, ◌+◌, ◌-◌, Bool, Option, none, some, List, [], ◌∷◌, ◌++◌, length, take, drop, get_or,
  ltb, leb, if◌then◌else◌,
}
use pulse_net.Base.Bytes.{Bytes}
use pulse_net.Server.Client.{
  Client, increase_reference_count, decrease_reference_count, disconnect, is_released,
}
use pulse_net.Server.Table.{ClientTable, get_client, put, terminate_client}

-- The parts that a message longer than the buffer is cut into, from `offset` on: the loop
-- `while (offset < msg_size)`, on a bound for its rounds.
unfoldable pub cut : ℕ → ℕ → ℕ → Bytes → List Bytes
cut zero len offset message = []
cut (suc fuel) len offset message =
    let left = length message - offset in
    let chunk = if ltb left len then left else len in
    let rest = cut fuel len (offset + chunk) message in
    if ltb offset (length message) then take chunk (drop offset message) ∷ rest else []

-- What `send` puts into the queue of the client.
unfoldable pub outgoing : ℕ → Bytes → List Bytes
unfolding cut
outgoing len message =
    if leb (length message) len then message ∷ [] else cut (length message) len 0 message

unfoldable pub post_receive_event : Bool → Client → Client
post_receive_event accepted c =
    if accepted
    then increase_reference_count (record c { pending_receives = c.pending_receives + 1 })
    else disconnect c

unfoldable pub post_send_event : ℕ → Bool → Bytes → Client → Client
post_send_event len accepted data' c =
    if ltb len (length data')
    then disconnect c
    else if accepted
    then increase_reference_count (record c {
      is_sending = Bool.true;
      pending_sends = c.pending_sends + 1;
      transmitted = c.transmitted ++ data' ∷ [];
    })
    else disconnect c

-- The front of a queue; an empty queue has none, and gives no bytes here.
abbrev pub front : List Bytes → Bytes
front queue = get_or queue 0 []

-- What follows the last use of a client: it is terminated when it is released.
unfoldable pub finish_client : Client → ClientTable → ClientTable
finish_client c t = if is_released c then terminate_client c.id (put c.id c t) else put c.id c t

-- `send` on the client that `getClient` returned.
unfoldable pub send_to : ℕ → Bool → Bytes → Client → Client
unfolding outgoing post_send_event
send_to len accepted message c =
    let queued = record c {
      outbound_message_queue = c.outbound_message_queue ++ outgoing len message;
    } in
    let posted =
      if c.is_sending
      then queued
      else decrease_reference_count (
          post_send_event len accepted (front queued.outbound_message_queue)
            (increase_reference_count queued)) in
    decrease_reference_count posted

-- On what `getClient` returned: a message to a client that is not connected is only logged.
unfoldable pub send_found : ℕ → Bool → Bytes → Option Client × ClientTable → ClientTable
unfolding send_to finish_client
send_found len accepted message (none, t) = t
send_found len accepted message (some c, t) = finish_client (send_to len accepted message c) t

unfoldable pub send : ℕ → Bool → ℕ → Bytes → ClientTable → ClientTable
unfolding get_client send_found
send len accepted id message t = send_found len accepted message (get_client id t)
