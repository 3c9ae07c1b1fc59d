-- ===== src/Server/Startup.antt =====
-- src/networking/TCPServer.h: `start`, `setupSocket`, `postAcceptExEvent` and `closeSocket`. What the
-- system answers to their calls is an argument.
pub mod Outcome
use pulse_net.Base.{
  ℕ, ◌+◌, ◌-◌, Bool, true, false, not, ◌&&◌, Option, none, some, List, [], ◌∷◌, ◌==◌, if◌then◌else◌,
}

-- The answers: if a call succeeds, and the sockets that WSASocketW gives, the first of them `none` for
-- INVALID_SOCKET. AcceptEx also succeeds when its operation is pending, and `io_pending` says if the
-- error behind it is ERROR_IO_PENDING.
pub record Answers : Type 0 where
  pub wsa_startup : Bool
  pub new_socket : Option ℕ
  pub bound : Bool
  pub accept_ex_found : Bool
  pub listened : Bool
  pub port_created : Bool
  pub associated : Bool
  pub client_socket : ℕ
  pub accepted : Bool
  pub io_pending : Bool

-- The members of the server that these functions write, with the sockets that the process has open and
-- the calls of WSAStartup that have no WSACleanup. `server_socket` is `none` for NULL.
pub record Listener : Type 0 where
  pub server_socket : Option ℕ
  pub listening : Bool
  pub has_accept_context : Bool
  pub pending_accept_count : ℕ
  pub listener_thread : Bool
  pub assembler_threads : Bool
  pub open_sockets : List ℕ
  pub startups : ℕ

pub data StartError : Type 0 where
  startup_failed : StartError
  socket_failed : StartError
  bind_failed : StartError
  accept_ex_failed : StartError
  listen_failed : StartError
  port_failed : StartError
  associate_failed : StartError
  first_accept_failed : StartError

pub data StartResult : Type 0 where
  running : StartResult
  already_listening : StartResult
  failed : StartError → StartResult

-- `closesocket`
unfoldable pub close : ℕ → List ℕ → List ℕ
close sock [] = []
close sock (s ∷ sockets) = let rest = close sock sockets in if sock == s then sockets else s ∷ rest

unfoldable pub close_socket : Listener → Listener
unfolding close
close_socket s = record s {
  open_sockets = elim s.server_socket [
    | none ↦ s.open_sockets
    | some sock ↦ close sock s.open_sockets
  ];
  startups = s.startups - 1;
}

-- On the socket that WSASocketW gave; a failure is the error that is thrown.
unfoldable pub bind_socket : Answers → Option ℕ → Listener → Listener × Option StartError
unfolding close_socket
bind_socket a none s =
    (record s { server_socket = none; startups = s.startups - 1 }, some socket_failed)
bind_socket a (some sock) s =
    let opened = record s { server_socket = some sock; open_sockets = sock ∷ s.open_sockets } in
    if a.bound then (opened, none) else (close_socket opened, some bind_failed)

unfoldable pub setup_socket : Answers → Listener → Listener × Option StartError
unfolding bind_socket
setup_socket a s =
    if a.wsa_startup
    then bind_socket a a.new_socket (record s { startups = s.startups + 1 })
    else (s, some startup_failed)

-- `postAcceptExEvent`, and if it posted the operation.
unfoldable pub post_accept_ex_event : Answers → Listener → Listener × Bool
unfolding close
post_accept_ex_event a s = elim s.server_socket [
  | none ↦ (s, false)
  | some _ ↦
      let opened = a.client_socket ∷ s.open_sockets in
      if not s.has_accept_context
      then (s, false)
      else if a.accepted
      then (record s { open_sockets = opened }, true)
      else (record s { open_sockets = close a.client_socket opened }, false)
]

-- Behind the first accept: `success` says if it was posted.
unfoldable pub after_accept : Answers → Listener × Bool → Listener × StartResult
unfolding close_socket
after_accept a (posted, success) =
    let now = record posted {
      listening = true;
      pending_accept_count = posted.pending_accept_count + 1;
    } in
    if not success && not a.io_pending
    then (close_socket now, failed first_accept_failed)
    else (record now { listener_thread = true; assembler_threads = true }, running)

-- The first accept, and the threads.
unfoldable pub accept_first : Answers → Listener → Listener × StartResult
unfolding post_accept_ex_event after_accept
accept_first a s = after_accept a (post_accept_ex_event a (record s { has_accept_context = true }))

-- Behind `setupSocket`.
unfoldable pub listen_on : Answers → Listener × Option StartError → Listener × StartResult
unfolding accept_first
listen_on a (s, some e) = (s, failed e)
listen_on a (s, none) =
    if s.listening
    then (s, already_listening)
    else if not a.accept_ex_found
    then (s, failed accept_ex_failed)
    else if not a.listened
    then (s, failed listen_failed)
    else if not a.port_created
    then (s, failed port_failed)
    else if not a.associated
    then (s, failed associate_failed)
    else accept_first a s

unfoldable pub start : Answers → Listener → Listener × StartResult
unfolding setup_socket listen_on
start a s = listen_on a (setup_socket a s)
