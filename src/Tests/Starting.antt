-- ===== src/Tests/Starting.antt =====
-- The start of the program on a new and on a used installation, and what its console shows.
use pulse_net.Base.{true, false, ◌≡◌, refl, ◌⊎◌, inr, Option, none, some, List, [], ◌∷◌, map, arith}
use pulse_net.Base.Bytes.{Bytes, codes, concat}
use pulse_net.Utils.Chars.{to_string, decimal}
use pulse_net.Utils.Files.{Platform, Access, file_at}
use pulse_net.Utils.Config.Creating.{
  ConfigError, thrown, returned, Disk, get_config_file_path, config_parser, read_config,
}
use pulse_net.Utils.Config.Opening.{CanOpen, HasKept, config_parser-opened}
use pulse_net.Utils.Config.Restarting.{
  ReadsAgain, default_entries, config_parser-again, config_parser-first_start,
}
use pulse_net.Utils.Console.Prompt.{show_prompt, prompt_text, show_prompt-digits}
use pulse_net.Logging.{LogType, LogSeverity, Logs, log, new_logger}
use pulse_net.Logging.Files.{make_logger, log_to, logs_in, opened_in}
use pulse_net.Logging.Appending.{make_logger-log}
use pulse_net.Server.Client.{Client, make_client}
use pulse_net.Server.Startup.{Answers}
use pulse_net.Server.Showing.{
  show_clients, show_info, connected, int_text, AllLong, show_rows-connected,
}
use pulse_net.Program.Main.{Run, main}
use pulse_net.Program.Exits.{IsServing, IsStopped, main-ends}
use pulse_net.Tests.Serving.{new_client}
use pulse_net.Tests.Threads.{fresh_listener, refused}

abbrev home : Platform
home = Platform.posix (some (codes "/home/u"))

abbrev config_path : Bytes
config_path = codes "/home/u/.config/PulseNet/config.conf"

abbrev open_access : Access
open_access = record { makes_directories = true; readable = λ path. true; writable = λ path. true }

abbrev no_logs : Logs
no_logs = record { network_log = []; db_log = []; app_log = codes "old" }

abbrev new_disk : Disk
new_disk = record { files = []; logger = opened_in (codes "/l"); logs = no_logs }

abbrev used_disk : Disk
used_disk = record {
  files = (config_path, codes "A=1\nB=2\n") ∷ [];
  logger = opened_in (codes "/l");
  logs = no_logs;
}

home-path : get_config_file_path home ≡ returned config_path
unfolding get_config_file_path
home-path = refl

config_parser-opened_example :
    (CanOpen open_access config_path used_disk.files
      × ((d : Disk) × (content : Bytes) × (config_parser open_access home (codes "now") used_disk
            ≡ (d, returned content))
          × HasKept (codes "now") config_path used_disk d content))
    ⊎ ((CanOpen open_access config_path used_disk.files → ⊥)
        × ((e : ConfigError) × ((config_parser open_access home (codes "now") used_disk).1
              ≡ thrown e)))
config_parser-opened_example =
    config_parser-opened open_access home (codes "now") config_path used_disk home-path

config_parser-again_example :
    ReadsAgain
      (codes "later")
      config_path
      (config_parser open_access home (codes "later"))
      (config_parser open_access home (codes "now") new_disk)
config_parser-again_example =
    config_parser-again open_access home (codes "now") (codes "later") config_path new_disk
      home-path (refl, refl, inr refl)

config_parser-first_start_example :
    (read_config (config_parser open_access home (codes "now") new_disk)).1
    ≡ returned default_entries
config_parser-first_start_example =
    config_parser-first_start open_access home (codes "now") config_path new_disk home-path refl
      refl refl (unfold file_at in refl)

make_logger-log_example :
    let made =
      make_logger open_access (codes "/l") ((codes "/l/network.log", codes "old\n") ∷ []) in
    (made.2 ≡ false)
    × (logs_in
          (codes "/l")
          (log_to (codes "now") LogType.network LogSeverity.log_error (codes "lost") made.0 made.1)
        ≡ log
            (codes "now")
            LogType.network
            LogSeverity.log_error
            (codes "lost")
            (logs_in (codes "/l") ((codes "/l/network.log", codes "old\n") ∷ [])))
make_logger-log_example =
    make_logger-log open_access (codes "/l") ((codes "/l/network.log", codes "old\n") ∷ [])
      (codes "now") LogType.network LogSeverity.log_error (codes "lost") (λ name. refl)

abbrev two_entries : List (Option Client)
two_entries = none ∷ some new_client ∷ []

show_rows-connected_example :
    ((show_clients two_entries).1 ≡ concat (map show_info (connected two_entries)))
    × AllLong 139 (map show_info (connected two_entries))
unfolding make_client
show_rows-connected_example = show_rows-connected two_entries (
  record {
    id_fits = unfold to_string decimal in omega arith;
    ip_fits = omega arith;
    port_fits = unfold to_string decimal in omega arith;
    count_fits = unfold int_text to_string decimal in omega arith;
  },
  tt,
)

abbrev begun : Run
begun = record {
  disk = new_disk;
  manager = record { logger = none; default_logger = new_logger };
  listener = fresh_listener;
  errors = [];
  commands = [];
  pool = none;
  outcomes = [];
}

abbrev granted : Answers
granted = record refused { listened = true }

main-ends_example :
    IsServing (codes "clients" ∷ []) begun (
      main
        (codes "now")
        10048
        (codes "clients" ∷ [])
        open_access
        true
        home
        (codes "/home/u")
        granted
        begun)
    ⊎ IsStopped begun (
        main
          (codes "now")
          10048
          (codes "clients" ∷ [])
          open_access
          true
          home
          (codes "/home/u")
          granted
          begun)
main-ends_example =
    main-ends (codes "now") 10048 (codes "clients" ∷ []) open_access true home (codes "/home/u")
      granted begun (refl, refl, refl, refl)

show_prompt-digits_example : show_prompt true 9 5 30 ≡ prompt_text 90 50 30
show_prompt-digits_example =
    show_prompt-digits true 9 5 30 (omega arith) (omega arith) (omega arith)
