-- ===== src/Tests/Threads.antt =====
-- The pool of one worker, the start of the listener, and a client that waits for a worker.
use pulse_net.Base.{none, ℕ, ◌≡◌, ◌<◌, ◌%◌, ◌⊎◌, true, false, refl, Option, some, [], length, arith}
use pulse_net.Base.Int.{ℤ}
use pulse_net.Base.Bytes.{codes}
use pulse_net.Server.Client.{Client, make_client}
use pulse_net.Server.Sending.{send}
use pulse_net.Server.Table.{slot, add_client, terminate_client}
use pulse_net.Server.Events.{
  ServerState, initial_server, on_connection, on_completion, assembler_worker,
}
use pulse_net.Http.Assembler.State.{initial_state}
use pulse_net.Http.Assembler.Feed.{feed_client}
use pulse_net.Server.Events.Queues.{IsQueued}
use pulse_net.Server.Events.Waiting.{Reachable-IsAwaited}
use pulse_net.Server.Startup.{Answers, Listener, start}
use pulse_net.Server.Startup.Outcome.{IsLeft, start-IsLeft}
use pulse_net.Pool.{
  ThreadPool, Owner, make_thread_pool, create_thread, push_context, PoolReachable, made, moved,
  run_begins, creates, pushes, run_ends, stop_begins,
}
use pulse_net.Pool.Bounds.{IsSound, PoolReachable-IsSound}
use pulse_net.Tests.Pipelining.{same_order, defaults}
use pulse_net.Tests.Serving.{address, one_received, one_received-Reachable, new_client}

abbrev queued_client : Client
queued_client = record new_client {
  recv_buffer = codes "GET";
  recv_len = 3;
  reference_count = ℤ.pos 0;
  pending_receives = 0;
}

queued_client-slot : slot one_received.table.client_list 0 ≡ some queued_client
unfolding initial_server on_connection on_completion slot make_client add_client
queued_client-slot = refl

Reachable-IsAwaited_example :
    (0 < queued_client.pending_receives)
    ⊎ (IsQueued 0 one_received.assembling_queues
        × ((t : ServerState) × (assembler_worker same_order defaults 4096 true true
                (0 % length one_received.assembling_queues)
                one_received
              ≡ some t)))
Reachable-IsAwaited_example =
    Reachable-IsAwaited same_order defaults 4096 2 one_received 0 queued_client true true
      (omega arith) one_received-Reachable queued_client-slot (unfold make_client in refl)

abbrev pub fresh_listener : Listener
fresh_listener = record {
  server_socket = Option.none;
  listening = false;
  has_accept_context = false;
  pending_accept_count = 0;
  listener_thread = false;
  assembler_threads = false;
  open_sockets = [];
  startups = 0;
}

abbrev pub refused : Answers
refused = record {
  wsa_startup = true;
  new_socket = some 3;
  bound = true;
  accept_ex_found = true;
  listened = false;
  port_created = true;
  associated = true;
  client_socket = 4;
  accepted = true;
  io_pending = false;
}

start-IsLeft_example : IsLeft refused fresh_listener (start refused fresh_listener)
start-IsLeft_example = start-IsLeft refused fresh_listener

abbrev one_worker : ThreadPool
one_worker = record {
  workers = 1;
  is_running = false;
  owner = Owner.fresh;
  threads = [];
  contexts = [];
  calls = [];
}

abbrev opened : ThreadPool
opened = record one_worker { is_running = true; owner = Owner.launching }

abbrev filled : ThreadPool
filled = push_context (create_thread opened)

abbrev stopping_pool : ThreadPool
stopping_pool = record filled { is_running = false; owner = Owner.stopping }

stopping_pool-PoolReachable : PoolReachable 1 stopping_pool
unfolding make_thread_pool
stopping_pool-PoolReachable =
    moved (record filled { owner = Owner.launched }) stopping_pool
      (moved filled (record filled { owner = Owner.launched })
        (moved (create_thread opened) filled
          (moved opened (create_thread opened)
            (moved one_worker opened (made one_worker refl) (run_begins one_worker refl))
            (creates opened refl refl (omega arith)))
          (pushes (create_thread opened) refl refl))
        (run_ends filled refl refl))
      (stop_begins (record filled { owner = Owner.launched }) refl)

PoolReachable-IsSound_example : IsSound 1 stopping_pool
PoolReachable-IsSound_example = PoolReachable-IsSound 1 stopping_pool stopping_pool-PoolReachable

-- A refused send terminates the client that waits in a queue, a new connection takes its id, and the
-- worker posts a second receive on the new client.
abbrev reused : ServerState
reused =
    on_connection 4096 5001 address 8 [] true true
      (record one_received { table = send 4096 false 0 (codes "HTTP") one_received.table })

abbrev receives_of : Option ServerState → Option ℕ
receives_of none = none
receives_of (some s) = elim (slot s.table.client_list 0) [
  | none ↦ none
  | some c ↦ some c.pending_receives
]

reused_receives :
    receives_of (assembler_worker same_order defaults 4096 true true 0 reused) ≡ some 2
unfolding initial_server on_connection on_completion slot make_client add_client send
    assembler_worker terminate_client feed_client initial_state
reused_receives = refl
