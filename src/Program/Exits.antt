-- ===== src/Program/Exits.antt =====
-- How `main` of src/PulseNet.cpp comes to its end.
use mathlib.Core.List.{append_assoc}
use pulse_net.Base.{
  ℕ, Bool, true, false, ◌≡◌, refl, sym, ap, subst, ◌∙◌, Option, none, some, List, [], ◌∷◌, ◌++◌,
  ◌⊎◌, inl, inr, ◌≢◌, ◌+◌, Bool-cases, arith, length, map, if◌then◌else◌,
}
use pulse_net.Base.Int.{ℤ, minus_one}
use pulse_net.Base.Bytes.{Bytes, codes, equal, concat}
use pulse_net.Utils.Files.{Platform, Access}
use pulse_net.Utils.Config.{Entries}
use pulse_net.Utils.Config.Creating.{
  ConfigError, no_directories, Tried, thrown, returned, config_parser, read_config,
}
use pulse_net.Utils.Console.{
  Outcome, called, not_found, unknown, find_command, tokenize, run_tokens, run,
}
use pulse_net.Utils.Console.Tokens.{find_command-register}
use pulse_net.Logging.{Severity, set_manager_level}
use pulse_net.Logging.Files.{get_log_directory, make_logger}
use pulse_net.Server.Startup.{
  Answers, Listener, StartError, StartResult, running, already_listening, failed, start,
  setup_socket, bind_socket, close_socket, listen_on, accept_first, after_accept,
  post_accept_ex_event,
}
use pulse_net.Server.Startup.Outcome.{IsLeft, start-IsLeft}
use pulse_net.Server.Showing.{Handler, show_connections, register_commands}
use pulse_net.Pool.{Owner, ThreadPool, make_thread_pool, PoolReachable, run_pool}
use pulse_net.Pool.Launching.{run_pool-PoolReachable}
use pulse_net.Program.Main.{
  Run, Exit, uncaught, exited, complaints, launched_pool, open_logger, after_start, after_config,
  after_logger, main,
}

bind_socket-listening :
    (a : Answers) (o : Option ℕ) (s : Listener) → (bind_socket a o s).0.listening ≡ s.listening
unfolding bind_socket close_socket
bind_socket-listening a none s = refl
bind_socket-listening a (some sock) s = ground arith

setup_socket-listening : (a : Answers) (s : Listener) → (setup_socket a s).0.listening ≡ s.listening
unfolding setup_socket
setup_socket-listening a s =
    let begun = record s { startups = s.startups + 1 } in
    elim (Bool-cases a.wsa_startup) [
      | inl ok ↦ rw ok (bind_socket-listening a a.new_socket begun)
      | inr bad ↦ rw bad refl
    ]

after_accept-new : (a : Answers) (p : Listener × Bool) → (after_accept a p).1 ≢ already_listening
unfolding after_accept
after_accept-new a (s, ok) = ground arith

listen_on-new :
    (a : Answers) (p : Listener × Option StartError)
    → p.0.listening ≡ false
    → (listen_on a p).1 ≢ already_listening
unfolding listen_on accept_first
listen_on-new a (s, some e) h = ground arith
listen_on-new a (s, none) h =
    ground
      (arith, after_accept-new a (post_accept_ex_event a (record s { has_accept_context = true })))

-- The listener of a server that was just made.
abbrev pub IsNew : Run → Type 0
IsNew r =
    (r.listener.listening ≡ false)
    × (r.listener.listener_thread ≡ false)
    × (r.pool ≡ none)
    × (r.outcomes ≡ [])

-- What the standard error gets for a line of the console whose first word is no command.
abbrev pub complaint : List Bytes → Bytes
complaint [] = []
complaint (name ∷ args) =
    if equal name (codes "connections")
    then []
    else codes "Unknown command: " ++ (name ++ (10 ∷ []))

abbrev pub complaints_of : List Bytes → Bytes
complaints_of lines = concat (map (λ line. complaint (tokenize line)) lines)

-- A pool of four workers behind its `run`.
abbrev pub IsLaunched : Option ThreadPool → Type 0
IsLaunched pool =
    (p : ThreadPool) × (pool ≡ some p)
    × PoolReachable 4 p
    × (p.owner ≡ Owner.launched)
    × (length p.threads ≡ 4)

-- The standard error behind what it had: that a log file was not opened, or nothing.
abbrev pub OpeningText : Bytes → Type 0
OpeningText text = (text ≡ []) ⊎ (text ≡ codes "Failed to open log files.\n")

-- The server listens, the command is there, and the pool was launched.
abbrev pub HasServed : Bytes → Run × Exit → Type 0
HasServed errors (s, e) =
    (e ≡ exited (ℤ.pos 0))
    × (s.listener.listening ≡ true)
    × (s.listener.listener_thread ≡ true)
    × (find_command (codes "connections") s.commands ≡ some show_connections)
    × IsLaunched s.pool
    × (s.errors ≡ errors)

abbrev pub IsServing : List Bytes → Run → Run × Exit → Type 0
IsServing lines r end =
    (text : Bytes) × OpeningText text × HasServed (r.errors ++ (text ++ complaints_of lines)) end

-- No thread of the program was started and no line of the console was read.
abbrev pub IsStopped : Run → Run × Exit → Type 0
IsStopped r (s, e) =
    ((e ≡ exited minus_one) ⊎ ((c : ConfigError) × (e ≡ uncaught c)))
    × (s.listener.listener_thread ≡ false)
    × (s.pool ≡ none)
    × (s.outcomes ≡ [])
    × (s.commands ≡ r.commands)

-- The commands of a console that was just made.
found_command :
    (name : Bytes)
    → find_command name (register_commands [])
      ≡ (if equal name (codes "connections") then some show_connections else none)
unfolding register_commands
found_command name =
    find_command-register (codes "connections") name show_connections []
    ∙ ap (λ x. if equal name (codes "connections") then some show_connections else x)
        (unfold find_command in refl)

complaints-append :
    (xs ys : List (Outcome Handler)) → complaints (xs ++ ys) ≡ complaints xs ++ complaints ys
unfolding complaints
complaints-append [] ys = refl
complaints-append (called h args ∷ xs) ys = complaints-append xs ys
complaints-append (not_found ∷ xs) ys = complaints-append xs ys
complaints-append (unknown name ∷ xs) ys =
    ap (λ w. codes "Unknown command: " ++ (name ++ (10 ∷ w))) (complaints-append xs ys)
    ∙ sym (
        append_assoc (codes "Unknown command: ") (name ++ (10 ∷ complaints xs)) (complaints ys)
        ∙ ap (λ w. codes "Unknown command: " ++ w)
            (append_assoc name (10 ∷ complaints xs) (complaints ys)))

run_tokens-complaint :
    (ts : List Bytes) → complaints (run_tokens (register_commands []) ts) ≡ complaint ts
unfolding run_tokens complaints
run_tokens-complaint [] = refl
run_tokens-complaint (name ∷ args) = elim (Bool-cases (equal name (codes "connections"))) [
  | inl e ↦ rw (run_tokens, found_command name, e) refl
  | inr e ↦ rw (run_tokens, found_command name, e) refl
]

run-complaints :
    (lines : List Bytes) → complaints (run (register_commands []) lines) ≡ complaints_of lines
unfolding run
run-complaints [] = unfold complaints in refl
run-complaints (line ∷ more) =
    complaints-append (run_tokens (register_commands []) (tokenize line)) _
    ∙ (λ i. run_tokens-complaint (tokenize line) i ++ run-complaints more i)

launched_pool-IsLaunched : IsLaunched (launched_pool (make_thread_pool (ℤ.pos 4)))
unfolding launched_pool make_thread_pool
launched_pool-IsLaunched =
    let new_pool : ThreadPool = record {
      workers = 4;
      is_running = false;
      owner = Owner.fresh;
      threads = [];
      contexts = [];
      calls = [];
    } in
    let (reached, behind_run, size) = run_pool-PoolReachable 4 new_pool refl refl refl refl in
    (run_pool new_pool, refl, reached, behind_run, size)

module _ (now : Bytes) (last_error : ℕ) (lines : List Bytes) where
  after_start-ends :
      (a : Answers) (l : Listener) (r : Run) (x : StartResult)
      → IsNew (record r { listener = l })
      → x ≢ already_listening
      → IsLeft a l (r.listener, x)
      → HasServed (r.errors ++ complaints_of lines) (after_start now last_error lines r x)
        ⊎ IsStopped r (after_start now last_error lines r x)
  unfolding after_start
  after_start-ends a l r running n h left = inl (
    refl,
    left.listens,
    left.threads,
    found_command (codes "connections") ∙ unfold equal in refl,
    launched_pool-IsLaunched,
    ap (λ w. r.errors ++ w) (run-complaints lines),
  )
  after_start-ends a l r already_listening n h left = absurd (h refl)
  after_start-ends a l r (failed e) n h left = inr (inl refl, left.threads ∙ n.1, n.2, n.3, refl)

  after_config-ends :
      (a : Answers) (r : Run) (x : Tried Entries)
      → IsNew r
      → HasServed (r.errors ++ complaints_of lines) (after_config now last_error lines a r x)
        ⊎ IsStopped r (after_config now last_error lines a r x)
  unfolding after_config
  after_config-ends a r (thrown e) n = inr (inr (e, refl), n.1, n.2, n.3, refl)
  after_config-ends a r (returned entries) n =
      let (listener, result) = start a r.listener in
      let fresh : result ≢ already_listening =
        unfold start in
        listen_on-new a (setup_socket a r.listener) (setup_socket-listening a r.listener ∙ n.0) in
      after_start-ends a r.listener
        (record r { manager = set_manager_level Severity.trace r.manager; listener = listener })
        result n fresh (start-IsLeft a r.listener)

  after_logger-ends :
      (access : Access) (platform : Platform) (a : Answers) (r : Run)
      → IsNew r
      → HasServed
          (r.errors ++ complaints_of lines)
          (after_logger now last_error lines access platform a r)
        ⊎ IsStopped r (after_logger now last_error lines access platform a r)
  unfolding after_logger
  after_logger-ends access platform a r n =
      let (disk, entries) = read_config (config_parser access platform now r.disk) in
      after_config-ends a (record r { disk = disk }) entries n

  -- What the opening of the logs writes.
  OpeningText-cases :
      (b : Bool) → OpeningText (if b then codes "Failed to open log files.\n" else [])
  OpeningText-cases true = inr refl
  OpeningText-cases false = inl refl

  -- A program whose server does not listen yet, and whose pool is not made, comes to one of two ends,
  -- whatever the system answers. Either it comes to `return 0` behind its console, and then the server
  -- listens with its thread, the command `connections` calls the handler that shows the clients, the
  -- pool is in a state that a pool of four workers reaches, behind `run`, with four threads, and the
  -- standard error got no more than the complaint on the log files and a line for each line of the
  -- input whose first word is not `connections`. Or it comes to `return -1`, or an exception of the
  -- logger's directory or the configuration ends it, and then the thread of the listener was not
  -- started, no pool was made, no command was added and no line was read.
  pub main-ends :
      (access : Access) (makes_logs : Bool) (platform : Platform) (home : Bytes) (a : Answers)
      (r : Run)
      → IsNew r
      → IsServing lines r (main now last_error lines access makes_logs platform home a r)
        ⊎ IsStopped r (main now last_error lines access makes_logs platform home a r)
  unfolding main
  main-ends access false platform home a r n = inr (inr (no_directories, refl), n.1, n.2, n.3, refl)
  main-ends access true platform home a r n =
      let failed = (make_logger access (get_log_directory platform home) []).2 in
      let text = if failed then codes "Failed to open log files.\n" else [] in
      unfold open_logger in
      elim (after_logger-ends access platform a
        (open_logger now last_error lines access platform home r) n) [
          | inl served ↦ inl (
            text,
            OpeningText-cases failed,
            subst (λ w. HasServed w (main now last_error lines access true platform home a r))
                (append_assoc r.errors text (complaints_of lines)) served,
          )
          | inr stopped ↦ inr stopped
        ]
