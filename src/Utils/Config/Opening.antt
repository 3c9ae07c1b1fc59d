-- ===== src/Utils/Config/Opening.antt =====
-- The constructor of src/utils/ConfigParser.cpp: what it throws, and what it does to the files.
use pulse_net.Base.{
  Bool, true, false, ◌≡◌, refl, sym, ap, ◌∙◌, ◌⊎◌, inl, inr, Option, none, some, ◌++◌, Bool-cases,
  Option-cases,
}
use pulse_net.Base.Bytes.{Bytes, equal}
use pulse_net.Utils.Files.{
  Platform, Files, Access, file_at, write_file, equal_refl, file_at-write_file,
}
use pulse_net.Utils.Config.Creating.{
  ConfigError, no_directories, not_created, not_found, thrown, returned, Disk, open_file,
  default_config, get_config_file_path, create_config_file_if_not_exists, open_config, config_at,
  config_parser, noted, is_there_text, is_made_text,
}

-- A path that can be read: the file is there, or it can be made.
abbrev pub CanOpen : Access → Bytes → Files → Type 0
CanOpen a path files =
    (a.makes_directories ≡ true)
    × (a.readable path ≡ true)
    × (((content : Bytes) × (file_at path files ≡ some content)) ⊎ (a.writable path ≡ true))

abbrev pub or_default : Option Bytes → Bytes
or_default none = default_config
or_default (some content) = content

-- What the constructor leaves of a file.
abbrev pub kept : Bytes → Files → Bytes
kept path files = or_default (file_at path files)

-- What is logged about it.
abbrev pub news_of : Bytes → Option Bytes → Bytes
news_of path none = is_made_text ++ path
news_of path (some content) = is_there_text ++ path

abbrev pub news : Bytes → Files → Bytes
news path files = news_of path (file_at path files)

abbrev pub HasKept : Bytes → Bytes → Disk → Disk → Bytes → Type 0
HasKept now path d d' content =
    (content ≡ kept path d.files)
    × (file_at path d'.files ≡ some content)
    × ((q : Bytes) → equal q path ≡ false → file_at q d'.files ≡ file_at q d.files)
    × (d'.logs ≡ noted now (news path d.files) d)
    × (d'.logger ≡ d.logger)

module _ (a : Access) (now path : Bytes) (d : Disk) where
  open_file-readable :
      (files : Files) → a.readable path ≡ true → open_file a path files ≡ file_at path files
  unfolding open_file
  open_file-readable files e = rw e refl

  -- The file is there.
  create-there :
      (content : Bytes)
      → a.makes_directories ≡ true
      → open_file a path d.files ≡ some content
      → create_config_file_if_not_exists a now path d
        ≡ (record d { logs = noted now (is_there_text ++ path) d }, returned false)
  unfolding create_config_file_if_not_exists
  create-there content e f = rw (e, f) refl

  -- It is made.
  create-made :
      a.makes_directories ≡ true
      → open_file a path d.files ≡ none
      → a.writable path ≡ true
      → create_config_file_if_not_exists a now path d ≡ (
        record d {
          files = write_file path default_config d.files;
          logs = noted now (is_made_text ++ path) d;
        },
        returned true,
      )
  unfolding create_config_file_if_not_exists
  create-made e f g = rw (e, f, g) refl

  open_config-found :
      (d' : Disk) (created : Bool) (content : Bytes)
      → open_file a path d'.files ≡ some content
      → open_config a path (d', returned created) ≡ (d', returned content)
  unfolding open_config
  open_config-found d' created content e = rw e refl

  written : file_at path (write_file path default_config d.files) ≡ some default_config
  written = file_at-write_file path path default_config d.files ∙ rw (equal_refl path) refl

  -- It opens the file, with its content or the default one, and no other file changes.
  pub config_at-opened :
      CanOpen a path d.files
      → (d' : Disk) × (content : Bytes) × (config_at a now d (returned path)
          ≡ (d', returned content))
        × HasKept now path d d' content
  unfolding config_at
  config_at-opened (dirs, can_read, there) = elim (Option-cases (file_at path d.files)) [
    | inr (content, found) ↦
        let here = open_file-readable d.files can_read ∙ found in
        let e = create-there content dirs here in
        let d' : Disk = record d { logs = noted now (is_there_text ++ path) d } in
        (
          d',
          content,
          ap (open_config a path) e ∙ open_config-found d' false content here,
          (
            sym (ap or_default found),
            found,
            λ q other. refl,
            ap (λ x. noted now (news_of path x) d) (sym found),
            refl,
          ),
        )
    | inl missing ↦
        let none_here = open_file-readable d.files can_read ∙ missing in
        elim there [
          | inl (content, found) ↦ absurd (cc (sym missing ∙ found))
          | inr can_write ↦
              let e = create-made dirs none_here can_write in
              let files = write_file path default_config d.files in
              let d' : Disk = record d {
                files = files;
                logs = noted now (is_made_text ++ path) d;
              } in
              (
                d',
                default_config,
                ap (open_config a path) e
                    ∙ open_config-found d' true default_config
                        (open_file-readable files can_read ∙ written),
                (
                  sym (ap or_default missing),
                  written,
                  λ q other. file_at-write_file q path default_config d.files ∙ rw other refl,
                  ap (λ x. noted now (news_of path x) d) (sym missing),
                  refl,
                ),
              )
        ]
  ]

  -- The ways in which it throws.
  create-refused :
      a.makes_directories ≡ false
      → (e : ConfigError) × (create_config_file_if_not_exists a now path d ≡ (d, thrown e))
  unfolding create_config_file_if_not_exists
  create-refused dirs = rw dirs (no_directories, refl)

  create-unwritable :
      a.makes_directories ≡ true
      → open_file a path d.files ≡ none
      → a.writable path ≡ false
      → (e : ConfigError) × (create_config_file_if_not_exists a now path d ≡ (d, thrown e))
  unfolding create_config_file_if_not_exists
  create-unwritable e f g = rw (e, f, g) (not_created path, refl)

  open_config-missing :
      (d' : Disk) (created : Bool)
      → open_file a path d'.files ≡ none
      → open_config a path (d', returned created) ≡ (d', thrown not_found)
  unfolding open_config
  open_config-missing d' created e = rw e refl

  open_file-unreadable : (files : Files) → a.readable path ≡ false → open_file a path files ≡ none
  unfolding open_file
  open_file-unreadable files e = rw e refl

  abbrev IsThrown : Type 0
  IsThrown = (e : ConfigError) × ((config_at a now d (returned path)).1 ≡ thrown e)

  opened_thrown :
      (d' : Disk) (e : ConfigError)
      → create_config_file_if_not_exists a now path d ≡ (d', thrown e)
      → IsThrown
  unfolding config_at
  opened_thrown d' e h = (e, ap (λ r. (open_config a path r).1) h ∙ unfold open_config in refl)

  unreadable-IsThrown : a.makes_directories ≡ true → a.readable path ≡ false → IsThrown
  unfolding config_at
  unreadable-IsThrown dirs blind =
      let none_here = open_file-unreadable d.files blind in
      elim (Bool-cases (a.writable path)) [
        | inr fixed ↦ let (e, h) = create-unwritable dirs none_here fixed in opened_thrown d e h
        | inl free ↦
            let h = create-made dirs none_here free in
            let files = write_file path default_config d.files in
            (
              not_found,
              ap (λ r. (open_config a path r).1) h
                  ∙ ap (λ r. r.1)
                      (open_config-missing
                        (record d { files = files; logs = noted now (is_made_text ++ path) d }) true
                        (open_file-unreadable files blind)),
            )
      ]

  config_at-cases : CanOpen a path d.files ⊎ ((CanOpen a path d.files → ⊥) × IsThrown)
  config_at-cases = elim (Bool-cases a.makes_directories) [
    | inr no_dirs ↦
        let (e, h) = create-refused no_dirs in
        inr (λ can. cc (sym no_dirs ∙ can.0), opened_thrown d e h)
    | inl dirs ↦ elim (Bool-cases (a.readable path)) [
      | inr blind ↦ inr (λ can. cc (sym blind ∙ can.1), unreadable-IsThrown dirs blind)
      | inl sees ↦ elim (Option-cases (file_at path d.files)) [
        | inr (content, found) ↦ inl (dirs, sees, inl (content, found))
        | inl missing ↦ elim (Bool-cases (a.writable path)) [
          | inl free ↦ inl (dirs, sees, inr free)
          | inr fixed ↦
              let (e, h) =
                create-unwritable dirs (open_file-readable d.files sees ∙ missing) fixed in
              inr (
                λ can. elim can.2 [
                  | inl (content, found) ↦ cc (sym missing ∙ found)
                  | inr free ↦ cc (sym fixed ∙ free)
                ],
                opened_thrown d e h,
              )
        ]
      ]
    ]
  ]

-- With the path of the configuration known, the constructor returns exactly when the directories can
-- be made, the path can be read, and the file is there or can be written; then the file has the
-- content that it had, or the default one where it was not there, this content is what the object
-- reads, and no other file changes but the log of the application, which gets one line, that the file
-- was made or that it was there, where the logger has it open. Otherwise it throws.
pub config_parser-opened :
    (a : Access) (platform : Platform) (now path : Bytes) (d : Disk)
    → get_config_file_path platform ≡ returned path
    → (CanOpen a path d.files
        × ((d' : Disk) × (content : Bytes) × (config_parser a platform now d
              ≡ (d', returned content))
            × HasKept now path d d' content))
      ⊎ ((CanOpen a path d.files → ⊥)
          × ((e : ConfigError) × ((config_parser a platform now d).1 ≡ thrown e)))
unfolding config_parser
config_parser-opened a platform now path d e = elim (config_at-cases a now path d) [
  | inl can ↦ rw e (inl (can, config_at-opened a now path d can))
  | inr failed ↦ rw e (inr failed)
]
