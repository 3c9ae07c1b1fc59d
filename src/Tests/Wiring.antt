-- ===== src/Tests/Wiring.antt =====
-- The configuration, the console, the logger, the default assembler and the application.
use pulse_net.Base.{
  ◌≡◌, ◌≢◌, ◌≤◌, ◌↔◌, refl, none, some, List, [], ◌∷◌, ◌++◌, true, inl, inr, arith,
}
use pulse_net.Base.Bytes.{concat, Bytes, codes, equal}
use pulse_net.Server.DefaultAssembler.{feed_receives, feed_receives-messages}
use pulse_net.Server.Client.{make_client}
use pulse_net.Server.Table.{slot, add_client}
use pulse_net.Server.Events.{
  ServerState, Completion, Reachable, started, stepped, connected, completed, assembled,
  initial_server, on_connection, on_completion, assembler_worker,
}
use pulse_net.Tests.Serving.{address, one_connected, new_client}
use pulse_net.Utils.Config.{read, print}
use pulse_net.Utils.Config.Reading.{read-print-read}
use pulse_net.Utils.Console.{called, tokenize, register_command, run}
use pulse_net.Utils.Console.Tokens.{
  AreTokens, IsSolid, solid, spread, tokenize-solid, run-registered,
}
use pulse_net.Logging.{
  Severity, LoggerManager, new_logger, write, get_logger, set_manager_level, to_int,
}
use pulse_net.Logging.Level.{set_manager_level-write}
use pulse_net.Tests.Pipelining.{same_order, defaults}

abbrev config_file : Bytes
config_file =
    codes "* DATABASE" ++ 10 ∷ codes "PORT=5432" ++ 10 ∷ codes "HOST=a=b" ++ 10 ∷ codes " "

read_config :
    read config_file []
    ≡ ((codes " ", []) ∷ (codes "HOST", codes "a=b") ∷ (codes "PORT", codes "5432") ∷ [])
unfolding read equal
read_config = refl

read-print-read_example : read (print (read config_file [])) [] ≡ read config_file []
read-print-read_example = read-print-read config_file

tokenize-solid_example :
    AreTokens (tokenize (codes " connections  all"))
    × (concat (tokenize (codes " connections  all")) ≡ solid (codes " connections  all"))
tokenize-solid_example = tokenize-solid (codes " connections  all")

abbrev no_commands : List (Bytes × Severity)
no_commands = []

IsSolid-name : IsSolid (codes "connections")
IsSolid-name = ground arith

run-registered_example :
    run (register_command (codes "connections") Severity.info no_commands) (
      (codes " " ++ spread ((codes "connections", codes "  ") ∷ (codes "all", []) ∷ []))
      ∷ codes "quit"
      ∷ [])
    ≡ called Severity.info (codes "connections" ∷ codes "all" ∷ [])
      ∷ run (register_command (codes "connections") Severity.info no_commands) (codes "quit" ∷ [])
run-registered_example =
    run-registered (codes "connections") (codes "  ") (codes " ") Severity.info no_commands
      ((codes "all", []) ∷ []) (codes "quit" ∷ []) (refl, tt)
      (
        omega arith,
        IsSolid-name,
        (refl, (refl, tt)),
        inr (omega arith),
        (omega arith, (refl, (refl, (refl, tt))), tt, inl refl, tt),
      )

abbrev new_manager : LoggerManager
new_manager = record { logger = none; default_logger = new_logger }

set_manager_level-write_example :
    (write Severity.info (codes "ready") (get_logger (set_manager_level Severity.trace new_manager))
      ≢ [])
    ↔ (to_int Severity.trace ≤ to_int Severity.info)
set_manager_level-write_example =
    set_manager_level-write Severity.trace Severity.info (codes "ready") new_manager

feed_receives-messages_example :
    feed_receives [] 0 (codes "ab" ∷ codes "c" ∷ []) ≡ codes "ab" ∷ codes "c" ∷ []
feed_receives-messages_example =
    feed_receives-messages [] (codes "ab" ∷ codes "c" ∷ []) (omega arith, (omega arith, tt))

abbrev request_bytes : Bytes
request_bytes = codes "GET / HTTP/1.1" ++ 13 ∷ 10 ∷ 13 ∷ 10 ∷ []

abbrev one_queued : ServerState
one_queued = on_completion 4096 true 0 (Completion.received request_bytes) one_connected

abbrev one_assembled : ServerState
one_assembled = elim (assembler_worker same_order defaults 4096 true true 0 one_queued) [
  | none ↦ one_queued
  | some t ↦ t
]

one_assembled-Reachable : Reachable same_order defaults 4096 2 one_assembled
unfolding initial_server on_connection on_completion slot make_client add_client assembler_worker
one_assembled-Reachable =
    stepped one_queued one_assembled
      (stepped one_connected one_queued
        (stepped (initial_server 2) one_connected started
          (connected (initial_server 2) 5000 address 7 [] true true))
        (completed one_connected true 0 (Completion.received request_bytes) new_client refl
          (omega arith, omega arith)))
      (assembled one_queued one_assembled true true 0 refl)
