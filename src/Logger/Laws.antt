-- ===== src/Logger/Laws.antt =====
-- What `Log` of logger/logger.go does to the files.
use net_cat.Base.{
  Bytes, bytes_eq, bytes_eq_iff, true, false, ◌≡◌, [], ◌∷◌, ◌++◌, none, some, if◌then◌else◌, arith,
  ◌⊎◌,
}
use net_cat.Base.Assoc.{Assoc, insert, lookup-insert}
use net_cat.Models.{Message}
use net_cat.Models.Format.{format_log_line}
use net_cat.Logger.{Disk, Logger, log_path, content_of, format_date, ensure_file, log_message}

-- An open file is that of the current date.
pub record IsOpen (l : Logger) : Type 0 where
  pub dated : (l.file ≡ none) ⊎ (l.file ≡ some (log_path l.logs_dir l.cur_date))

pub ensure_file-IsOpen :
    (date : Bytes) (l : Logger) (d : Disk) → IsOpen l → IsOpen (ensure_file date l d).0
unfolding ensure_file
ensure_file-IsOpen date l d v = ground arith

pub log_message-IsOpen :
    (m : Message) (l : Logger) (d : Disk) → IsOpen l → IsOpen (log_message m l d).0
unfolding log_message ensure_file
log_message-IsOpen m l d v = ground arith

-- The file of the message's day.
abbrev pub day_path : Logger → Message → Bytes
day_path l m = log_path l.logs_dir (format_date m.timestamp)

pub content_of-insert :
    (p q text : Bytes) (files : Assoc Bytes)
    → content_of p (insert q text files) ≡ (if bytes_eq q p then text else content_of p files)
content_of-insert p q text files = ground (arith, lookup-insert q p text files)

ensure_file-ready :
    (date : Bytes) (l : Logger) (d : Disk) (p : Bytes)
    → IsOpen l
    → d.can_open (log_path l.logs_dir date) ≡ true
    → ((ensure_file date l d).2 ≡ false)
      × ((ensure_file date l d).0.file ≡ some (log_path l.logs_dir date))
      × ((ensure_file date l d).1.can_write (log_path l.logs_dir date)
          ≡ d.can_write (log_path l.logs_dir date))
      × (content_of p (ensure_file date l d).1.files ≡ content_of p d.files)
unfolding ensure_file
ensure_file-ready date l d p v h = ground (
  arith,
  bytes_eq_iff l.cur_date date,
  bytes_eq_iff (log_path l.logs_dir date) p,
  content_of-insert p (log_path l.logs_dir date) (content_of (log_path l.logs_dir date) d.files)
      d.files,
)

-- On an open logger and a disk that lets the day's file be opened and written, `Log` appends the
-- message's line to that file, creating it if need be, and leaves every other file as it is.
pub log_message-appends :
    (m : Message) (l : Logger) (d : Disk) (p : Bytes)
    → IsOpen l
    → l.closed ≡ false
    → d.can_open (day_path l m) ≡ true
    → d.can_write (day_path l m) ≡ true
    → content_of p (log_message m l d).1.files ≡ (
        if bytes_eq (day_path l m) p
        then content_of (day_path l m) d.files ++ (format_log_line m ++ 10 ∷ [])
        else content_of p d.files)
unfolding log_message
log_message-appends m l d p v open_log can_open can_write =
    let date = format_date m.timestamp in
    let path = day_path l m in
    let d' = (ensure_file date l d).1 in
    ground (
      arith,
      ensure_file-ready date l d p v can_open,
      ensure_file-ready date l d path v can_open,
      content_of-insert p path (content_of path d'.files ++ (format_log_line m ++ 10 ∷ []))
          d'.files,
    )
