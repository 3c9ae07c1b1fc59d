-- ===== src/Server/Events.antt =====
-- src/networking/TCPServer.h: a completion in the loop of the listener thread, and a round of
-- `assemblerWorker`, for the server of src/PulseNet.cpp, whose assembler is the HTTP assembler. What
-- the system answers (a posted operation is accepted or not) is an argument; each of the two runs
-- to its end before the next one starts.
pub mod Table
pub mod Consistency
pub mod Serving
pub mod Counting
pub mod References
pub mod Waking
pub mod Queues
pub mod Remembering
pub mod Rounds
pub mod Waiting
pub mod Stream
pub mod Arriving
pub mod Streaming
use pulse_net.Base.{
  ℕ, ◌+◌, ◌-◌, ◌≤◌, ◌<◌, ◌%◌, Bool, Option, none, some, List, [], ◌∷◌, ◌++◌, length, take, drop,
  get_or, set, map, if◌then◌else◌, ◌==◌, ◌≡◌, replicate,
}
use pulse_net.Base.Int.{ℤ, ◌+ℤ◌, ◌-ℤ◌, eq_ℤ}
use pulse_net.Base.Bytes.{Bytes}
use pulse_net.Http.Message.{HttpMessage}
use pulse_net.Http.Message.HeaderMap.{Headers}
use pulse_net.Http.Assembler.State.{Limits}
use pulse_net.Http.Assembler.Feed.{ClientStates, feed}
use pulse_net.Server.Client.{
  Client, increase_reference_count, decrease_reference_count, disconnect, is_released,
}
use pulse_net.Server.Table.{
  ClientTable, empty_table, slot, put, add_client, get_client, terminate_client,
}
use pulse_net.Server.Sending.{front, post_receive_event, post_send_event, finish_client, send}

pub record ClientDto : Type 0 where
  pub id : ℕ
  pub ip_address : Bytes
  pub port : ℕ

pub record Request : Type 0 where
  pub client : ClientDto
  pub message : HttpMessage

unfoldable pub create_request : Client → HttpMessage → Request
create_request c message = record {
  client = record { id = c.id; ip_address = c.ip_address; port = c.port };
  message = message;
}

pub record ServerState : Type 0 where
  pub table : ClientTable
  pub pending_accepts : ℤ
  pub assembling_queues : List (List ℕ)
  pub requests : List Request
  pub client_states : ClientStates

-- `ThreadSafeQueue::push` on the queue of a client.
unfoldable pub push_id : ℕ → List (List ℕ) → List (List ℕ)
push_id id queues = let k = id % length queues in set queues k (get_or queues k [] ++ id ∷ [])

-- `ThreadSafeQueue::pop`, which waits while the queue is empty.
unfoldable pub pop_id : ℕ → List (List ℕ) → Option (ℕ × List (List ℕ))
pop_id k queues = elim (get_or queues k []) [ [] ↦ none | id ∷ ids ↦ some (id, set queues k ids) ]

-- A new connection; `awaiting` and `posted` say if WSARecv and AcceptEx accepted the next operation.
unfoldable pub on_connection : ℕ → ℕ → Bytes → ℕ → Bytes → Bool → Bool → ServerState → ServerState
unfolding finish_client post_receive_event
on_connection len port ip sock buffer awaiting posted s =
    let (id, t) = add_client port ip sock len buffer s.table in
    let pending = s.pending_accepts -ℤ ℤ.pos 1 in
    elim (slot t.client_list id) [
      | none ↦ s
      | some c ↦ record s {
        table =
            finish_client
              (decrease_reference_count (
                decrease_reference_count
                  (post_receive_event awaiting (increase_reference_count c))))
              t;
        pending_accepts = if posted then pending +ℤ ℤ.pos 1 else pending;
      }
    ]

-- The operation of a client that is complete: the bytes that arrived, or a message that was sent.
pub data Completion : Type 0 where
  received : Bytes → Completion
  sent : Completion

-- WSARecv writes behind the bytes that were in the buffer when it was posted: the ones that are in it
-- now, unless a second receive was pending. What is written behind the end lengthens the list.
abbrev pub store_received : Bytes → Client → Client
store_received bytes c = record c {
  recv_buffer =
      take c.recv_len c.recv_buffer ++ bytes ++ drop (c.recv_len + length bytes) c.recv_buffer;
  recv_len = c.recv_len + length bytes;
}

unfoldable pub on_received : Bytes → Client → ServerState → ServerState
unfolding push_id
on_received bytes c s =
    if length bytes == 0
    then record s {
      table =
          if eq_ℤ c.reference_count (ℤ.pos 0)
          then terminate_client c.id (put c.id (disconnect c) s.table)
          else put c.id (disconnect c) s.table;
    }
    else record s {
      table = put c.id (store_received bytes c) s.table;
      assembling_queues = push_id c.id s.assembling_queues;
    }

unfoldable pub on_sent : ℕ → Bool → Client → ServerState → ServerState
unfolding finish_client post_send_event
on_sent len accepted c s =
    let popped = record c { outbound_message_queue = drop 1 c.outbound_message_queue } in
    record s {
      table =
          if length popped.outbound_message_queue == 0
          then put c.id (record popped { is_sending = Bool.false }) s.table
          else finish_client
              (decrease_reference_count (
                post_send_event len accepted (front popped.outbound_message_queue)
                  (increase_reference_count popped)))
              s.table;
    }

-- The system is done with the operation.
unfoldable pub completed_operation : Completion → Client → Client
completed_operation (received bytes) c = record c { pending_receives = c.pending_receives - 1 }
completed_operation sent c = record c { pending_sends = c.pending_sends - 1 }

-- An operation of this kind is pending. WSARecv was given some of the buffer when it was posted, so it
-- brings no more bytes than the buffer holds; when another receive ended since, that can be more than
-- the room which is left now.
abbrev pub IsPending : ℕ → Completion → Client → Type 0
IsPending len (received bytes) c = (0 < c.pending_receives) × (length bytes ≤ len)
IsPending len sent c = 0 < c.pending_sends

unfoldable pub on_kind : ℕ → Bool → Completion → Client → ServerState → ServerState
unfolding on_received on_sent
on_kind len accepted (received bytes) c s = on_received bytes c s
on_kind len accepted sent c s = on_sent len accepted c s

-- A completion of the client with this id. Its pointer is the completion key: the client stands in
-- the table.
unfoldable pub on_completion : ℕ → Bool → ℕ → Completion → ServerState → ServerState
unfolding on_kind completed_operation
on_completion len accepted id completion s = elim (slot s.table.client_list id) [
  | none ↦ s
  | some found ↦
      let c = decrease_reference_count (completed_operation completion found) in
      if is_released c
      then record s { table = terminate_client c.id (put c.id c s.table) }
      else on_kind len accepted completion c s
]

-- `client->disconnect()` behind the answer to a malformed request, and the end of the round.
unfoldable pub disconnect_client : ℕ → ClientTable → ClientTable
unfolding finish_client
disconnect_client id t = elim (slot t.client_list id) [
  | none ↦ t
  | some c ↦ finish_client (decrease_reference_count (disconnect c)) t
]

-- What a worker does with the client `c` that `getClient` returned.
unfoldable pub assemble :
    (Headers → Headers) → Limits → ℕ → Bool → Bool → Client → ServerState → ServerState
unfolding feed send finish_client post_receive_event create_request disconnect_client
assemble iterate limits len accepted awaiting found s =
    let (fed, states) =
      feed iterate limits s.client_states found.id found.recv_buffer found.recv_len len in
    let c = record found { recv_buffer = fed.buffer; recv_len = fed.buffer_len } in
    let fed_state = record s { table = put c.id c s.table; client_states = states } in
    let answered = send len accepted c.id fed.result.error_message fed_state.table in
    let next =
      decrease_reference_count (post_receive_event awaiting (increase_reference_count c)) in
    if fed.result.error
    then record fed_state { table = disconnect_client c.id answered }
    else record fed_state {
      requests = s.requests ++ map (create_request c) fed.result.messages;
      table = finish_client (decrease_reference_count next) fed_state.table;
    }

-- On what `getClient` returned.
unfoldable pub assemble_found :
    (Headers → Headers)
    → Limits
    → ℕ
    → Bool
    → Bool
    → Option Client × ClientTable
    → ServerState
    → ServerState
unfolding assemble
assemble_found iterate limits len accepted awaiting (none, t) s = record s { table = t }
assemble_found iterate limits len accepted awaiting (some c, t) s =
    assemble iterate limits len accepted awaiting c (record s { table = t })

-- On what the queue of the worker gave.
unfoldable pub assemble_next :
    (Headers → Headers)
    → Limits
    → ℕ
    → Bool
    → Bool
    → Option (ℕ × List (List ℕ))
    → ServerState
    → Option ServerState
unfolding get_client assemble_found
assemble_next iterate limits len accepted awaiting none s = none
assemble_next iterate limits len accepted awaiting (some (id, queues)) s = some (
    assemble_found iterate limits len accepted awaiting (get_client id s.table)
      (record s { assembling_queues = queues }))

-- A round of the worker `k`; `none` while its queue is empty.
unfoldable pub assembler_worker :
    (Headers → Headers) → Limits → ℕ → Bool → Bool → ℕ → ServerState → Option ServerState
unfolding pop_id assemble_next
assembler_worker iterate limits len accepted awaiting k s =
    assemble_next iterate limits len accepted awaiting (pop_id k s.assembling_queues) s

unfoldable pub initial_server : ℕ → ServerState
initial_server workers = record {
  table = empty_table;
  pending_accepts = ℤ.pos 1;
  assembling_queues = replicate workers [];
  requests = [];
  client_states = [];
}

-- What can happen next: a connection, a completion, a round of a worker, an answer that the
-- application sends, a request that it takes.
pub data Step (iterate : Headers → Headers) (l : Limits) (len : ℕ)
    : ServerState → ServerState → Type 0 where
  connected :
      (s : ServerState) (port : ℕ) (ip : Bytes) (sock : ℕ) (buffer : Bytes) (a b : Bool)
      → Step iterate l len s (on_connection len port ip sock buffer a b s)
  completed :
      (s : ServerState) (b : Bool) (id : ℕ) (completion : Completion) (c : Client)
      → slot s.table.client_list id ≡ some c
      → IsPending len completion c
      → Step iterate l len s (on_completion len b id completion s)
  assembled :
      (s t : ServerState) (b a : Bool) (k : ℕ)
      → assembler_worker iterate l len b a k s ≡ some t
      → Step iterate l len s t
  answered :
      (s : ServerState) (b : Bool) (id : ℕ) (message : Bytes)
      → Step iterate l len s (record s { table = send len b id message s.table })
  taken : (s : ServerState) → Step iterate l len s (record s { requests = drop 1 s.requests })

pub data Reachable (iterate : Headers → Headers) (l : Limits) (len workers : ℕ)
    : ServerState → Type 0 where
  started : Reachable iterate l len workers (initial_server workers)
  stepped :
      (s t : ServerState)
      → Reachable iterate l len workers s
      → Step iterate l len s t
      → Reachable iterate l len workers t
