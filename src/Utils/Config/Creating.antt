-- ===== src/Utils/Config/Creating.antt =====
-- src/utils/ConfigParser.cpp: the constructor, with `getConfigFilePath` and
-- `createConfigFileIfNotExists`, on the files of the system. What the system answers (the folder, if
-- the directories can be made, which paths can be read and written) is an argument. A file is the
-- bytes behind its path, and nothing else writes to it meanwhile. The three files of the logger stand
-- apart: what they hold is in `Disk.logs`, and which of them are open in `Disk.logger`.
use pulse_net.Base.{Bool, true, false, not, Option, none, some, [], ◌++◌, if◌then◌else◌}
use pulse_net.Base.Bytes.{Bytes, codes}
use pulse_net.Logging.{Logs, LogType, LogSeverity}
use pulse_net.Logging.Files.{Logger, log_through}
use pulse_net.Utils.Files.{Platform, Files, Access, file_at, write_file}
use pulse_net.Utils.Config.{Entries, read}

-- What is thrown: by `getConfigFilePath`, by `std::string` of a null pointer (where the standard
-- library checks it), by `create_directories`, and by the two functions of the class.
pub data ConfigError : Type 0 where
  no_folder : ConfigError
  null_home : ConfigError
  no_directories : ConfigError
  not_created : Bytes → ConfigError
  not_found : ConfigError

pub data Tried (A : Type 0) : Type 0 where
  thrown : ConfigError → Tried A
  returned : A → Tried A

abbrev pub config_file_name : Bytes
config_file_name = codes "config.conf"

unfoldable pub get_config_file_path : Platform → Tried Bytes
get_config_file_path (Platform.windows none) = thrown no_folder
get_config_file_path (Platform.windows (some folder)) =
    returned (folder ++ (codes "\\PulseNet\\" ++ config_file_name))
get_config_file_path (Platform.posix none) = thrown null_home
get_config_file_path (Platform.posix (some home)) =
    returned (home ++ (codes "/.config/PulseNet/" ++ config_file_name))

-- The files, the logger, and what its files hold.
pub record Disk : Type 0 where
  pub files : Files
  pub logger : Logger
  pub logs : Logs

-- `std::ifstream`, which fails where there is no file, and where it may not be read.
unfoldable pub open_file : Access → Bytes → Files → Option Bytes
unfolding file_at
open_file a path files = if a.readable path then file_at path files else none

-- The file that is created.
abbrev pub default_config : Bytes
default_config =
    codes "\n"
    ++ (codes "***********************************************************************\n"
        ++ (codes "*                           DATABASE CONFIG                           *\n"
            ++ (codes "***********************************************************************\n "
                ++ (codes "\n"
                    ++ (codes "DATABASE_HOST=localhost\n"
                        ++ (codes "DATABASE_PORT=5432\n"
                            ++ (codes "DATABASE_PASSWORD=root\n"
                                ++ (codes "\n" ++ (codes "\n")))))))))

-- What is logged.
abbrev pub noted : Bytes → Bytes → Disk → Logs
noted now message d =
    log_through now LogType.application LogSeverity.log_info message d.logger d.logs

abbrev pub is_there_text : Bytes
is_there_text = codes "Config file already exists at: "

abbrev pub is_made_text : Bytes
is_made_text = codes "Created config file at: "

unfoldable pub create_config_file_if_not_exists : Access → Bytes → Bytes → Disk → Disk × Tried Bool
unfolding open_file write_file log_through
create_config_file_if_not_exists a now path d =
    if not a.makes_directories
    then (d, thrown no_directories)
    else elim (open_file a path d.files) [
      | some content ↦ (record d { logs = noted now (is_there_text ++ path) d }, returned false)
      | none ↦
          if a.writable path
          then (
            record d {
              files = write_file path default_config d.files;
              logs = noted now (is_made_text ++ path) d;
            },
            returned true,
          )
          else (d, thrown (not_created path))
    ]

-- The constructor, behind `createConfigFileIfNotExists`: the content behind the open file.
unfoldable pub open_config : Access → Bytes → Disk × Tried Bool → Disk × Tried Bytes
unfolding open_file
open_config a path (d, thrown e) = (d, thrown e)
open_config a path (d, returned created) = (
  d,
  elim (open_file a path d.files) [ none ↦ thrown not_found | some content ↦ returned content ],
)

unfoldable pub config_at : Access → Bytes → Disk → Tried Bytes → Disk × Tried Bytes
unfolding create_config_file_if_not_exists open_config
config_at a now d (thrown e) = (d, thrown e)
config_at a now d (returned path) =
    open_config a path (create_config_file_if_not_exists a now path d)

unfoldable pub config_parser : Access → Platform → Bytes → Disk → Disk × Tried Bytes
unfolding get_config_file_path config_at
config_parser a platform now d = config_at a now d (get_config_file_path platform)

-- `ConfigParser parser; parser.read()`
unfoldable pub read_config : Disk × Tried Bytes → Disk × Tried Entries
unfolding read
read_config (d, thrown e) = (d, thrown e)
read_config (d, returned content) = (d, returned (read content []))
