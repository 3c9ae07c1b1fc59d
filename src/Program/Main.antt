-- ===== src/Program/Main.antt =====
-- `main` of src/PulseNet.cpp: the logger, the configuration, the start of the server, the commands, the
-- pool and the console. A directory of the logs that cannot be made and a configuration that cannot be
-- opened are exceptions that nothing catches. The workers of the pool run beside the console, in
-- Program. `exited` says that `main` comes to its `return`: the destructors behind it join the threads,
-- and for a pool whose workers wait in `next` that does not end.
use pulse_net.Base.{ℕ, Bool, not, Option, none, some, List, [], ◌∷◌, ◌++◌, if◌then◌else◌}
use pulse_net.Base.Int.{ℤ, minus_one}
use pulse_net.Base.Bytes.{Bytes, codes}
use pulse_net.Utils.Chars.{to_string}
use pulse_net.Utils.Files.{Platform, Access}
use pulse_net.Utils.Config.{Entries}
use pulse_net.Utils.Config.Creating.{
  ConfigError, no_directories, Tried, thrown, returned, Disk, config_parser, read_config,
}
use pulse_net.Utils.Console.{Outcome, called, not_found, unknown, run}
use pulse_net.Logging.{Severity, LoggerManager, LogType, LogSeverity, set_manager_level}
use pulse_net.Logging.Files.{get_log_directory, make_logger, log_through}
use pulse_net.Server.Startup.{
  Answers, Listener, StartError, startup_failed, socket_failed, bind_failed, accept_ex_failed,
  listen_failed, port_failed, associate_failed, first_accept_failed, StartResult, start,
}
use pulse_net.Server.Showing.{Handler, register_commands}
use pulse_net.Pool.{ThreadPool, make_thread_pool, run_pool}

abbrev pub server_ip : Bytes
server_ip = codes "0.0.0.0"

abbrev pub server_port : ℕ
server_port = 80

-- `(ip: ..., port: ...`
abbrev where_text : Bytes
where_text = codes " (ip: " ++ (server_ip ++ (codes ", port: " ++ to_string server_port))

-- The texts that `start` and `setupSocket` throw; `last_error` is the answer of WSAGetLastError.
unfoldable pub what : ℕ → StartError → Bytes
what last_error startup_failed = codes "WSAStartup failed!"
what last_error socket_failed = codes "Error when creating socket!" ++ where_text
what last_error bind_failed = codes "Binding socket failed!" ++ (where_text ++ codes ")")
what last_error accept_ex_failed = codes "Error getting acceptEx ptr"
what last_error listen_failed = codes "Error trying to listen the socket!" ++ where_text
what last_error port_failed = codes "Failed to create IOCP"
what last_error associate_failed = codes "Failed to associate server socket with IOCP"
what last_error first_accept_failed = codes "Error executing first acceptEX" ++ to_string last_error

-- What the program has when it ends, or when the console waits for input.
pub record Run : Type 0 where
  pub disk : Disk
  pub manager : LoggerManager
  pub listener : Listener
  pub errors : Bytes
  pub commands : List (Bytes × Handler)
  pub pool : Option ThreadPool
  pub outcomes : List (Outcome Handler)

-- `ThreadPool test(4, ...); test.run()`
unfoldable pub launched_pool : Option ThreadPool → Option ThreadPool
unfolding run_pool
launched_pool none = none
launched_pool (some p) = some (run_pool p)

-- What the console writes to `std::cerr`.
unfoldable pub complaints : List (Outcome Handler) → Bytes
complaints [] = []
complaints (called h args ∷ more) = complaints more
complaints (not_found ∷ more) = complaints more
complaints (unknown name ∷ more) = codes "Unknown command: " ++ (name ++ (10 ∷ complaints more))

-- An exception that leaves `main`, or the number that it returns.
pub data Exit : Type 0 where
  uncaught : ConfigError → Exit
  exited : ℤ → Exit

module _ (now : Bytes) (last_error : ℕ) (lines : List Bytes) where
  -- Behind `server.start()`.
  unfoldable pub after_start : Run → StartResult → Run × Exit
  unfolding what log_through register_commands make_thread_pool launched_pool run complaints
  after_start r (StartResult.failed e) =
      let text = what last_error e in
      let logs =
        log_through now LogType.network LogSeverity.log_error text r.disk.logger r.disk.logs in
      (
        record r { disk = record r.disk { logs = logs }; errors = r.errors ++ (text ++ 10 ∷ []) },
        exited minus_one,
      )
  after_start r _ =
      let text =
        codes "Socket listener created successfully at "
        ++ (server_ip ++ (codes ":" ++ to_string server_port)) in
      let logs =
        log_through now LogType.network LogSeverity.log_info text r.disk.logger r.disk.logs in
      let commands = register_commands [] in
      let outcomes = run commands lines in
      (
        record r {
          disk = record r.disk { logs = logs };
          commands = commands;
          pool = launched_pool (make_thread_pool (ℤ.pos 4));
          outcomes = outcomes;
          errors = r.errors ++ complaints outcomes;
        },
        exited (ℤ.pos 0),
      )

  -- Behind `parser.read()`.
  unfoldable pub after_config : Answers → Run → Tried Entries → Run × Exit
  unfolding set_manager_level start after_start
  after_config answers r (thrown e) = (r, uncaught e)
  after_config answers r (returned entries) =
      let (listener, result) = start answers r.listener in
      after_start
        (record r { manager = set_manager_level Severity.trace r.manager; listener = listener })
        result

  -- `Logger::getInstance()` behind `create_directories`. The files are opened in append mode, which
  -- leaves what they hold as it is.
  unfoldable pub open_logger : Access → Platform → Bytes → Run → Run
  unfolding get_log_directory make_logger
  open_logger access platform home r =
      let (logger, files, failed) = make_logger access (get_log_directory platform home) [] in
      record r {
        disk = record r.disk { logger = logger };
        errors = r.errors ++ (if failed then codes "Failed to open log files.\n" else []);
      }

  -- Behind `Logger::getInstance()`.
  unfoldable pub after_logger : Access → Platform → Answers → Run → Run × Exit
  unfolding config_parser read_config after_config
  after_logger access platform answers r =
      let (disk, entries) = read_config (config_parser access platform now r.disk) in
      after_config answers (record r { disk = disk }) entries

  -- On what the program finds when it begins: `makes_logs` says if the directory of the logs can be
  -- made, and `home` is the directory of the user in the password file.
  unfoldable pub main : Access → Bool → Platform → Bytes → Answers → Run → Run × Exit
  unfolding open_logger after_logger
  main access makes_logs platform home answers r =
      if not makes_logs
      then (r, uncaught no_directories)
      else after_logger access platform answers (open_logger access platform home r)
