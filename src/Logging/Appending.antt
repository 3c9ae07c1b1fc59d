-- ===== src/Logging/Appending.antt =====
-- The files of src/utils/Logger.cpp, and the logs that they stand for.
use pulse_net.Base.{
  true, false, ◌||◌, ◌≡◌, refl, sym, ap, ◌∙◌, some, [], ◌∷◌, ◌++◌, if◌then◌else◌, arith, inl, inr,
  Bool-cases,
}
use pulse_net.Base.Bytes.{Bytes, codes, equal, equal_iff}
use pulse_net.Utils.Files.{Files, Access, write_file, file_at-write_file}
use pulse_net.Logging.{LogType, LogSeverity, log, log_line}
use pulse_net.Logging.Files.{
  is_closed, content_of, or_empty, open_append, make_logger, append, log_to, opened_in, logs_in,
}

equal-append : (dir x y : Bytes) → equal (dir ++ x) (dir ++ y) ≡ equal x y
unfolding equal
equal-append [] x y = refl
equal-append (c ∷ dir) x y = ground (arith, equal-append dir x y)

content_of-write_file :
    (q path content : Bytes) (files : Files)
    → content_of q (write_file path content files)
      ≡ (if equal q path then content else content_of q files)
content_of-write_file q path content files =
    ap or_empty (file_at-write_file q path content files)
    ∙ elim (Bool-cases (equal q path)) [ inl e ↦ rw e refl | inr e ↦ rw e refl ]

-- Of the files in a directory the one that is written to changes.
content_of-append :
    (dir x y text : Bytes) (files : Files)
    → content_of (dir ++ x) (append (some (dir ++ y)) text files)
      ≡ (if equal x y then content_of (dir ++ y) files ++ text else content_of (dir ++ x) files)
unfolding append
content_of-append dir x y text files =
    content_of-write_file (dir ++ x) (dir ++ y) (content_of (dir ++ y) files ++ text) files
    ∙ rw (equal-append dir x y) refl

log_to-logs_in :
    (now : Bytes) (type : LogType) (severity : LogSeverity) (message dir : Bytes) (files : Files)
    → logs_in dir (log_to now type severity message (opened_in dir) files)
      ≡ log now type severity message (logs_in dir files)
unfolding log_to log equal
log_to-logs_in now LogType.network level message dir files = λ i. record {
  network_log =
      content_of-append dir (codes "/network.log") (codes "/network.log")
        (log_line now level message) files i;
  db_log =
      content_of-append dir (codes "/database.log") (codes "/network.log")
        (log_line now level message) files i;
  app_log =
      content_of-append dir (codes "/application.log") (codes "/network.log")
        (log_line now level message) files i;
}
log_to-logs_in now LogType.database level message dir files = λ i. record {
  network_log =
      content_of-append dir (codes "/network.log") (codes "/database.log")
        (log_line now level message) files i;
  db_log =
      content_of-append dir (codes "/database.log") (codes "/database.log")
        (log_line now level message) files i;
  app_log =
      content_of-append dir (codes "/application.log") (codes "/database.log")
        (log_line now level message) files i;
}
log_to-logs_in now LogType.application level message dir files = λ i. record {
  network_log =
      content_of-append dir (codes "/network.log") (codes "/application.log")
        (log_line now level message) files i;
  db_log =
      content_of-append dir (codes "/database.log") (codes "/application.log")
        (log_line now level message) files i;
  app_log =
      content_of-append dir (codes "/application.log") (codes "/application.log")
        (log_line now level message) files i;
}

open_append-content :
    (a : Access) (path : Bytes) (files : Files)
    → a.writable path ≡ true
    → ((open_append a path files).0 ≡ some path)
      × ((q : Bytes) → content_of q (open_append a path files).1 ≡ content_of q files)
unfolding open_append
open_append-content a path files e = rw e (
  refl,
  λ q.
      content_of-write_file q path (content_of path files) files
      ∙ elim (Bool-cases (equal q path)) [
        | inl same ↦ rw same (ap (λ w. content_of w files) (sym ((equal_iff q path).0 same)))
        | inr other ↦ rw other refl
      ],
)

make_logger-opened :
    (a : Access) (dir : Bytes) (files : Files)
    → ((name : Bytes) → a.writable (dir ++ name) ≡ true)
    → let made = make_logger a dir files in
      (made.0 ≡ opened_in dir)
      × (made.2 ≡ false)
      × ((q : Bytes) → content_of q made.1 ≡ content_of q files)
unfolding make_logger
make_logger-opened a dir files can =
    let one = open_append a (dir ++ codes "/network.log") files in
    let two = open_append a (dir ++ codes "/database.log") one.1 in
    let three = open_append a (dir ++ codes "/application.log") two.1 in
    let (e, p) = open_append-content a (dir ++ codes "/network.log") files (can _) in
    let (f, q) = open_append-content a (dir ++ codes "/database.log") one.1 (can _) in
    let (g, r) = open_append-content a (dir ++ codes "/application.log") two.1 (can _) in
    (
      λ i. record { network_file = e i; db_file = f i; app_file = g i },
      λ i. is_closed (e i) || is_closed (f i) || is_closed (g i),
      λ x. r x ∙ q x ∙ p x,
    )

-- Where the files of a directory can be written, the constructor of the logger complains of nothing,
-- and `log` does to the logs that the three files hold, with all that was in them before the start,
-- what it does to logs in memory: the line stands behind the log of its type, and the two others stay.
pub make_logger-log :
    (a : Access) (dir : Bytes) (files : Files) (now : Bytes) (type : LogType) (level : LogSeverity)
    (message : Bytes)
    → ((name : Bytes) → a.writable (dir ++ name) ≡ true)
    → let made = make_logger a dir files in
      (made.2 ≡ false)
      × (logs_in dir (log_to now type level message made.0 made.1)
          ≡ log now type level message (logs_in dir files))
make_logger-log a dir files now type level message can =
    let made = make_logger a dir files in
    let (e, quiet, kept) = make_logger-opened a dir files can in
    let same : logs_in dir made.1 ≡ logs_in dir files = λ i. record {
      network_log = kept (dir ++ codes "/network.log") i;
      db_log = kept (dir ++ codes "/database.log") i;
      app_log = kept (dir ++ codes "/application.log") i;
    } in
    (
      quiet,
      ap (λ x. logs_in dir (log_to now type level message x made.1)) e
          ∙ log_to-logs_in now type level message dir made.1
          ∙ ap (log now type level message) same,
    )
