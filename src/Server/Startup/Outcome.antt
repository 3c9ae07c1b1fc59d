-- ===== src/Server/Startup/Outcome.antt =====
-- What `start` of src/networking/TCPServer.h leaves behind.
use pulse_net.Base.{
  ℕ, ◌+◌, Bool, true, false, not, ◌≡◌, refl, ap, ◌∙◌, Option, none, some, List, ◌∷◌, length,
  if◌then◌else◌, arith,
}
use pulse_net.Server.Startup.{
  Answers, Listener, StartError, startup_failed, socket_failed, bind_failed, accept_ex_failed,
  listen_failed, port_failed, associate_failed, first_accept_failed, StartResult, running,
  already_listening, failed, close, close_socket, bind_socket, setup_socket, post_accept_ex_event,
  accept_first, after_accept, listen_on, start,
}

-- The sockets that a start leaves open beside the ones that were open before, and its calls of
-- WSAStartup without a WSACleanup.
abbrev pub left_open : Answers → StartResult → ℕ
left_open a running = if a.accepted then 2 else 1
left_open a already_listening = 1
left_open a (failed startup_failed) = 0
left_open a (failed socket_failed) = 0
left_open a (failed bind_failed) = 0
left_open a (failed accept_ex_failed) = 1
left_open a (failed listen_failed) = 1
left_open a (failed port_failed) = 1
left_open a (failed associate_failed) = 1
left_open a (failed first_accept_failed) = 0

abbrev pub left_startups : Answers → StartResult → ℕ
left_startups a running = 1
left_startups a already_listening = 1
left_startups a (failed e) = left_open a (failed e)

abbrev pub is_running : StartResult → Bool
is_running running = true
is_running _ = false

abbrev pub is_first_accept : StartResult → Bool
is_first_accept (failed first_accept_failed) = true
is_first_accept _ = false

pub record IsLeft (a : Answers) (s : Listener) (r : Listener × StartResult) : Type 0 where
  pub sockets : length r.0.open_sockets ≡ length s.open_sockets + left_open a r.1
  pub startup_calls : r.0.startups ≡ s.startups + left_startups a r.1
  pub threads : r.0.listener_thread ≡ (if is_running r.1 then true else s.listener_thread)
  pub listens :
      r.0.listening
      ≡ (if is_running r.1 then true else if is_first_accept r.1 then true else s.listening)

close_front : (sock : ℕ) (sockets : List ℕ) → close sock (sock ∷ sockets) ≡ sockets
unfolding close
close_front sock sockets = ground arith

-- The server while `start` runs, with its socket.
abbrev bound_on : ℕ → Listener → Listener
bound_on sock s = record s {
  server_socket = some sock;
  open_sockets = sock ∷ s.open_sockets;
  startups = s.startups + 1;
}

-- What holds of both outcomes of a test.
choose :
    {A : Type 0} (P : A → Type 0) (b : Bool) (x y : A)
    → (b ≡ true → P x)
    → (b ≡ false → P y)
    → P (if b then x else y)
choose P true x y p q = p refl
choose P false x y p q = q refl

accepted-IsLeft :
    (a : Answers) (sock : ℕ) (s : Listener)
    → a.accepted ≡ true
    → IsLeft a s (
        after_accept a (
          record (bound_on sock s) {
            has_accept_context = true;
            open_sockets = a.client_socket ∷ sock ∷ s.open_sockets;
          },
          true,
        ))
unfolding after_accept
accepted-IsLeft a sock s e =
    let two : left_open a running ≡ 2 = rw e refl in
    record {
      sockets = omega (arith, two);
      startup_calls = omega arith;
      threads = refl;
      listens = refl;
    }

refused-IsLeft :
    (a : Answers) (sock : ℕ) (s : Listener) (opened : List ℕ)
    → opened ≡ sock ∷ s.open_sockets
    → a.accepted ≡ false
    → IsLeft a s (
        after_accept a
          (record (bound_on sock s) { has_accept_context = true; open_sockets = opened }, false))
unfolding after_accept close_socket
refused-IsLeft a sock s opened same e =
    let one : left_open a running ≡ 1 = rw e refl in
    let closed : close sock opened ≡ s.open_sockets =
      ap (close sock) same ∙ close_front sock s.open_sockets in
    choose (IsLeft a s) (not a.io_pending) _ _
      (λ _. record {
        sockets = omega (arith, ap length closed);
        startup_calls = omega arith;
        threads = refl;
        listens = refl;
      })
      (λ _. record {
        sockets = omega (arith, one, ap length same);
        startup_calls = omega arith;
        threads = refl;
        listens = refl;
      })

-- The function `after` on the two outcomes of the accept.
accept_first-IsLeft :
    (a : Answers) (sock : ℕ) (s : Listener) → IsLeft a s (accept_first a (bound_on sock s))
unfolding accept_first post_accept_ex_event
accept_first-IsLeft a sock s =
    choose (λ (r : Listener × Bool). IsLeft a s (after_accept a r)) a.accepted _ _
      (accepted-IsLeft a sock s)
      (refused-IsLeft a sock s _ (close_front a.client_socket (sock ∷ s.open_sockets)))

-- A start that ends on the bound socket.
IsLeft-bound :
    (a : Answers) (sock : ℕ) (s : Listener) (r : StartResult)
    → left_open a r ≡ 1
    → left_startups a r ≡ 1
    → is_running r ≡ false
    → is_first_accept r ≡ false
    → IsLeft a s (bound_on sock s, r)
IsLeft-bound a sock s r one once stopped other = record {
  sockets = omega (arith, one);
  startup_calls = omega (arith, once);
  threads = rw stopped refl;
  listens = rw (stopped, other) refl;
}

listen_on-IsLeft :
    (a : Answers) (sock : ℕ) (s : Listener) → IsLeft a s (listen_on a (bound_on sock s, none))
unfolding listen_on
listen_on-IsLeft a sock s =
    let left : (r : StartResult)
        → left_open a r ≡ 1
        → left_startups a r ≡ 1
        → is_running r ≡ false
        → is_first_accept r ≡ false
        → IsLeft a s (bound_on sock s, r) =
      IsLeft-bound a sock s in
    choose (IsLeft a s) s.listening _ _ (λ _. left already_listening refl refl refl refl)
      (λ _.
        choose (IsLeft a s) (not a.accept_ex_found) _ _
          (λ _. left (failed accept_ex_failed) refl refl refl refl)
          (λ _.
            choose (IsLeft a s) (not a.listened) _ _
              (λ _. left (failed listen_failed) refl refl refl refl)
              (λ _.
                choose (IsLeft a s) (not a.port_created) _ _
                  (λ _. left (failed port_failed) refl refl refl refl)
                  (λ _.
                    choose (IsLeft a s) (not a.associated) _ _
                      (λ _. left (failed associate_failed) refl refl refl refl)
                      (λ _. accept_first-IsLeft a sock s)))))

-- What the bound socket leaves when the call of `bind` fails.
unbound-IsLeft :
    (a : Answers) (sock : ℕ) (s : Listener)
    → IsLeft a s (close_socket (bound_on sock s), failed bind_failed)
unfolding close_socket
unbound-IsLeft a sock s = record {
  sockets = omega (arith, ap length (close_front sock s.open_sockets));
  startup_calls = omega arith;
  threads = refl;
  listens = refl;
}

bind_socket-IsLeft :
    (a : Answers) (o : Option ℕ) (s : Listener)
    → IsLeft a s (listen_on a (bind_socket a o (record s { startups = s.startups + 1 })))
unfolding bind_socket listen_on
bind_socket-IsLeft a none s = record {
  sockets = omega arith;
  startup_calls = omega arith;
  threads = refl;
  listens = refl;
}
bind_socket-IsLeft a (some sock) s =
    choose (λ (r : Listener × Option StartError). IsLeft a s (listen_on a r)) a.bound _ _
      (λ _. listen_on-IsLeft a sock s) (λ _. unbound-IsLeft a sock s)

failed_startup : (a : Answers) (s : Listener) → IsLeft a s (listen_on a (s, some startup_failed))
unfolding listen_on
failed_startup a s = record {
  sockets = omega arith;
  startup_calls = omega arith;
  threads = refl;
  listens = refl;
}

-- Whatever the system answers: a start that runs has started the listener thread and leaves its
-- socket open, and the one for the first client if AcceptEx took it. A start that finds the server
-- listening leaves another socket open. A start that throws starts no listener thread; it leaves no
-- socket open and no WSAStartup without its WSACleanup when WSAStartup, WSASocketW, bind or the first
-- accept fails, and one of each when listen or a call for AcceptEx or the completion port fails.
-- Beside a start that runs, only the failure of the first accept marks the server as listening.
pub start-IsLeft : (a : Answers) (s : Listener) → IsLeft a s (start a s)
unfolding start setup_socket
start-IsLeft a s =
    choose (λ (r : Listener × Option StartError). IsLeft a s (listen_on a r)) a.wsa_startup _ _
      (λ _. bind_socket-IsLeft a a.new_socket s) (λ _. failed_startup a s)
