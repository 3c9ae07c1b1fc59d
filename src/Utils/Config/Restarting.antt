-- ===== src/Utils/Config/Restarting.antt =====
-- A later start and a first start of src/utils/ConfigParser.cpp.
use pulse_net.Base.{
  true, ◌≡◌, refl, sym, ap, ◌∙◌, inl, inr, none, some, [], ◌∷◌, ◌++◌, Bool-cases, subst,
}
use pulse_net.Base.Bytes.{Bytes, codes, equal, equal_iff}
use pulse_net.Utils.Config.{
  Entries, read, lines, read_lines, is_entry, key_of, value_of, assign, less, find_char,
}
use pulse_net.Utils.Files.{Platform, Access, file_at}
use pulse_net.Utils.Config.Creating.{
  Tried, thrown, returned, Disk, default_config, get_config_file_path, config_at, config_parser,
  read_config, noted, is_there_text,
}
use pulse_net.Utils.Config.Opening.{CanOpen, or_default, news_of, HasKept, config_at-opened}

-- What a constructor that succeeded leaves opens again, with the same content.
reopened :
    (a : Access) (now later path : Bytes) (d d' : Disk) (content : Bytes)
    → CanOpen a path d.files
    → HasKept now path d d' content
    → ((config_at a later d' (returned path)).1 ≡ returned content)
      × ((q : Bytes)
          → file_at q (config_at a later d' (returned path)).0.files ≡ file_at q d'.files)
      × ((config_at a later d' (returned path)).0.logs ≡ noted later (is_there_text ++ path) d')
reopened a now later path d d' content can (same, found, others, logged, kept_logger) =
    let (x, y, e, (there, kept_there, rest, line, same_logger)) =
      config_at-opened a later path d' (can.0, can.1, inl (content, found)) in
    let y_content : y ≡ content = there ∙ ap or_default found in
    (
      ap (λ r. r.1) e ∙ ap returned y_content,
      λ q. ap (λ r. file_at q r.0.files) e ∙ elim (Bool-cases (equal q path)) [
        | inr other ↦ rest q other
        | inl here ↦
            let p = (equal_iff q path).0 here in
            ap (λ w. file_at w x.files) p
            ∙ kept_there
            ∙ ap some y_content
            ∙ sym found
            ∙ ap (λ w. file_at w d'.files) (sym p)
      ],
      ap (λ r. r.0.logs) e ∙ line ∙ ap (λ o. noted later (news_of path o) d') found,
    )

abbrev read_tried : Tried Bytes → Tried Entries
read_tried (returned content) = returned (read content [])
read_tried (thrown e) = thrown e

read_config_lem : (r : Disk × Tried Bytes) → (read_config r).1 ≡ read_tried r.1
unfolding read_config
read_config_lem (d, returned content) = refl
read_config_lem (d, thrown e) = refl

-- A later start behind the first one.
abbrev pub ReadsAgain : Bytes → Bytes → (Disk → Disk × Tried Bytes) → Disk × Tried Bytes → Type 0
ReadsAgain later path second first =
    ((read_config (second first.0)).1 ≡ (read_config first).1)
    × ((q : Bytes) → file_at q (second first.0).0.files ≡ file_at q first.0.files)
    × ((second first.0).0.logs ≡ noted later (is_there_text ++ path) first.0)

config_at-again :
    (a : Access) (now later path : Bytes) (d : Disk)
    → CanOpen a path d.files
    → ReadsAgain later path
        (λ x. config_at a later x (returned path))
        (config_at a now d (returned path))
config_at-again a now later path d can =
    let (d', content, opened, kept_there) = config_at-opened a now path d can in
    let (again, same, logged) = reopened a now later path d d' content can kept_there in
    let second = config_at a later d' (returned path) in
    subst (ReadsAgain later path (λ x. config_at a later x (returned path))) (sym opened) (
      read_config_lem second ∙ ap read_tried again ∙ sym (read_config_lem (d', returned content)),
      same,
      logged,
    )

-- Where the constructor can open the configuration, it can do so again at a later start with the same
-- answers of the system: the second object reads the configuration that the first one read, and the
-- second start changes the content of no file but the log of the application, which gets one line, that
-- the configuration was there, where the logger has it open.
pub config_parser-again :
    (a : Access) (platform : Platform) (now later path : Bytes) (d : Disk)
    → get_config_file_path platform ≡ returned path
    → CanOpen a path d.files
    → ReadsAgain later path (config_parser a platform later) (config_parser a platform now d)
unfolding config_parser
config_parser-again a platform now later path d e can =
    subst (λ t. ReadsAgain later path (λ x. config_at a later x t) (config_at a now d t)) (sym e)
      (config_at-again a now later path d can)

abbrev pub default_entries : Entries
default_entries =
    (codes " ", [])
    ∷ (codes "DATABASE_HOST", codes "localhost")
    ∷ (codes "DATABASE_PASSWORD", codes "root")
    ∷ (codes "DATABASE_PORT", codes "5432")
    ∷ []

read-default_config : read default_config [] ≡ default_entries
unfolding read lines read_lines is_entry key_of value_of assign less find_char equal
read-default_config = refl

-- At the first start, when the configuration is not there and can be made, the object reads the three
-- entries of the default file, and a fourth, whose key is a space and whose value is empty.
pub config_parser-first_start :
    (a : Access) (platform : Platform) (now path : Bytes) (d : Disk)
    → get_config_file_path platform ≡ returned path
    → a.makes_directories ≡ true
    → a.readable path ≡ true
    → a.writable path ≡ true
    → file_at path d.files ≡ none
    → (read_config (config_parser a platform now d)).1 ≡ returned default_entries
unfolding config_parser
config_parser-first_start a platform now path d e dirs sees free missing =
    let (d', content, opened, (same, found, others, logged, kept_logger)) =
      config_at-opened a now path d (dirs, sees, inr free) in
    read_config_lem (config_at a now d (get_config_file_path platform))
    ∙ ap (λ t. read_tried (config_at a now d t).1) e
    ∙ ap (λ r. read_tried r.1) opened
    ∙ ap (λ w. returned (read w [])) (same ∙ ap or_default missing)
    ∙ ap returned read-default_config
