-- ===== src/Logging.antt =====
-- src/networking/LoggerInterface.h, src/networking/LoggerManager.h and src/utils/Logger.cpp: what is
-- written, and to which of the logs. The time of a message is an argument.
pub mod Level
pub mod Files
pub mod Appending
use pulse_net.Base.{ℕ, Bool, Option, none, some, List, [], ◌∷◌, ◌++◌, leb, if◌then◌else◌}
use pulse_net.Base.Bytes.{Bytes, codes}

pub data Severity : Type 0 where
  trace : Severity
  s_debug : Severity
  info : Severity
  warn : Severity
  s_error : Severity
  fatal : Severity
  off : Severity

-- `static_cast<int>`
unfoldable pub to_int : Severity → ℕ
to_int Severity.trace = 0
to_int Severity.s_debug = 1
to_int Severity.info = 2
to_int Severity.warn = 3
to_int Severity.s_error = 4
to_int Severity.fatal = 5
to_int Severity.off = 6

unfoldable pub to_string : Severity → Bytes
to_string Severity.trace = codes "TRACE"
to_string Severity.s_debug = codes "DEBUG"
to_string Severity.info = codes "INFO"
to_string Severity.warn = codes "WARN"
to_string Severity.s_error = codes "ERROR"
to_string Severity.fatal = codes "FATAL"
to_string Severity.off = codes "OFF"

-- The escape byte of a color, and its parameters.
abbrev pub escape : Bytes → Bytes
escape parameters = 27 ∷ b'[' ∷ parameters

unfoldable pub color : Severity → Bytes
color Severity.trace = escape (codes "90m")
color Severity.s_debug = escape (codes "36m")
color Severity.info = escape (codes "32m")
color Severity.warn = escape (codes "33m")
color Severity.s_error = escape (codes "31m")
color Severity.fatal = escape (codes "41m") ++ escape (codes "97m")
color Severity.off = []

-- `LoggerInterface`: its level.
pub record LoggerInterface : Type 0 where
  pub log_level : Severity

abbrev pub new_logger : LoggerInterface
new_logger = record { log_level = Severity.s_error }

unfoldable pub is_enabled : Severity → LoggerInterface → Bool
unfolding to_int
is_enabled severity logger = leb (to_int logger.log_level) (to_int severity)

-- What `write` puts out.
unfoldable pub write : Severity → Bytes → LoggerInterface → Bytes
unfolding is_enabled color to_string
write severity message logger =
    if is_enabled severity logger
    then color severity
      ++ b'[' ∷ (to_string severity ++ codes "] " ++ message ++ escape (codes "0m") ++ 10 ∷ [])
    else []

unfoldable pub set_level : Severity → LoggerInterface → LoggerInterface
set_level level logger = record logger { log_level = level }

-- `LoggerManager`: the logger that was set, and the default one.
pub record LoggerManager : Type 0 where
  pub logger : Option LoggerInterface
  pub default_logger : LoggerInterface

unfoldable pub set_logger : Option LoggerInterface → LoggerManager → LoggerManager
set_logger logger m = record m { logger = logger }

unfoldable pub get_logger : LoggerManager → LoggerInterface
get_logger m = elim m.logger [ none ↦ m.default_logger | some logger ↦ logger ]

-- `LoggerManager::setLevel`, which writes to the logger that `get_logger` points to.
unfoldable pub set_manager_level : Severity → LoggerManager → LoggerManager
unfolding set_level
set_manager_level level m = elim m.logger [
  | none ↦ record m { default_logger = set_level level m.default_logger }
  | some logger ↦ record m { logger = some (set_level level logger) }
]

pub data LogType : Type 0 where
  network : LogType
  database : LogType
  application : LogType

pub data LogSeverity : Type 0 where
  log_info : LogSeverity
  log_warning : LogSeverity
  log_error : LogSeverity
  postgres_log : LogSeverity
  no_severity : LogSeverity

unfoldable pub get_severity_string : LogSeverity → Bytes
get_severity_string LogSeverity.log_info = codes "INFO"
get_severity_string LogSeverity.log_warning = codes "WARNING"
get_severity_string LogSeverity.log_error = codes "ERROR"
get_severity_string LogSeverity.postgres_log = codes "[POSTGRES LOG]"
get_severity_string LogSeverity.no_severity = []

-- The three files of `Logger`.
pub record Logs : Type 0 where
  pub network_log : Bytes
  pub db_log : Bytes
  pub app_log : Bytes

-- The line that `Logger::log` writes at the time `now`.
unfoldable pub log_line : Bytes → LogSeverity → Bytes → Bytes
unfolding get_severity_string
log_line now severity message =
    b'[' ∷ (now ++ codes "] " ++ get_severity_string severity ++ codes ": " ++ message ++ 10 ∷ [])

-- `Logger::log` on the logs.
unfoldable pub log : Bytes → LogType → LogSeverity → Bytes → Logs → Logs
unfolding log_line
log now type severity message logs = elim type [
  | LogType.network ↦ record logs {
    network_log = logs.network_log ++ log_line now severity message;
  }
  | LogType.database ↦ record logs { db_log = logs.db_log ++ log_line now severity message }
  | LogType.application ↦ record logs { app_log = logs.app_log ++ log_line now severity message }
]
