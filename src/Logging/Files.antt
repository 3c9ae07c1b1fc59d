-- ===== src/Logging/Files.antt =====
-- src/utils/Logger.cpp: the constructor with `getLogDirectory`, the destructor, and `log` on the files
-- that were opened. It is for the caller to say what it does where `create_directories` throws.
use pulse_net.Base.{Bool, true, false, ◌||◌, Option, none, some, [], ◌++◌, if◌then◌else◌}
use pulse_net.Base.Bytes.{Bytes, codes}
use pulse_net.Utils.Files.{Platform, Files, Access, file_at, write_file}
use pulse_net.Logging.{LogType, LogSeverity, Logs, log, log_line}

-- `home` is the directory of the user in the password file, for where HOME is not set.
unfoldable pub get_log_directory : Platform → Bytes → Bytes
get_log_directory (Platform.windows none) home = codes "C:\\PulseNet\\logs"
get_log_directory (Platform.windows (some folder)) home = folder ++ codes "\\PulseNet\\logs"
get_log_directory (Platform.posix none) home = home ++ codes "/.local/share/PulseNet/logs"
get_log_directory (Platform.posix (some dir)) home = dir ++ codes "/.local/share/PulseNet/logs"

-- The three streams, each with the path of its file, `none` for one that is not open.
pub record Logger : Type 0 where
  pub network_file : Option Bytes
  pub db_file : Option Bytes
  pub app_file : Option Bytes

-- The bytes of a file, empty where there is none.
abbrev pub or_empty : Option Bytes → Bytes
or_empty none = []
or_empty (some content) = content

abbrev pub content_of : Bytes → Files → Bytes
content_of path files = or_empty (file_at path files)

-- `open(path, std::ios::app)`, which makes a file that is not there.
unfoldable pub open_append : Access → Bytes → Files → Option Bytes × Files
unfolding write_file
open_append a path files =
    if a.writable path
    then (some path, write_file path (content_of path files) files)
    else (none, files)

abbrev pub is_closed : Option Bytes → Bool
is_closed none = true
is_closed (some path) = false

-- What the constructor leaves, with `true` where it complains on the standard error.
unfoldable pub make_logger : Access → Bytes → Files → Logger × Files × Bool
unfolding open_append
make_logger a dir files =
    let (network, one) = open_append a (dir ++ codes "/network.log") files in
    let (db, two) = open_append a (dir ++ codes "/database.log") one in
    let (app, three) = open_append a (dir ++ codes "/application.log") two in
    (
      record { network_file = network; db_file = db; app_file = app },
      three,
      is_closed network || is_closed db || is_closed app,
    )

-- `~Logger`
unfoldable pub close_logger : Logger → Logger
close_logger l = record { network_file = none; db_file = none; app_file = none }

-- `<<` on a stream in append mode; a stream that is not open takes nothing.
unfoldable pub append : Option Bytes → Bytes → Files → Files
unfolding write_file
append none text files = files
append (some path) text files = write_file path (content_of path files ++ text) files

unfoldable pub log_to : Bytes → LogType → LogSeverity → Bytes → Logger → Files → Files
unfolding append log_line
log_to now type severity message l files = elim type [
  | LogType.network ↦ append l.network_file (log_line now severity message) files
  | LogType.database ↦ append l.db_file (log_line now severity message) files
  | LogType.application ↦ append l.app_file (log_line now severity message) files
]

-- The stream for a type of message.
abbrev pub stream_of : LogType → Logger → Option Bytes
stream_of LogType.network l = l.network_file
stream_of LogType.database l = l.db_file
stream_of LogType.application l = l.app_file

-- `Logger::log` on the logs that the three files hold; a stream that is not open takes nothing.
unfoldable pub log_through : Bytes → LogType → LogSeverity → Bytes → Logger → Logs → Logs
unfolding log
log_through now type severity message l logs =
    if is_closed (stream_of type l) then logs else log now type severity message logs

-- The logger that opened its files in `dir`.
abbrev pub opened_in : Bytes → Logger
opened_in dir = record {
  network_file = some (dir ++ codes "/network.log");
  db_file = some (dir ++ codes "/database.log");
  app_file = some (dir ++ codes "/application.log");
}

-- The logs that the files in `dir` hold.
abbrev pub logs_in : Bytes → Files → Logs
logs_in dir files = record {
  network_log = content_of (dir ++ codes "/network.log") files;
  db_log = content_of (dir ++ codes "/database.log") files;
  app_log = content_of (dir ++ codes "/application.log") files;
}
