-- ===== src/Logger.antt =====
-- logger/logger.go: the daily log files. The mutex is not modelled.
pub mod Laws
pub mod Run
pub mod Growth
use net_cat.Base.{
  Bytes, codes, bytes_eq, Bool, true, false, ◌&&◌, ◌∷◌, [], ◌++◌, Option, none, some, if◌then◌else◌,
  ℕ,
}
use net_cat.Base.Assoc.{Assoc, lookup, insert}
use net_cat.Base.Decimal.{padded}
use net_cat.Models.{Time, Message}
use net_cat.Models.Format.{format_log_line}

-- The file system: what each file holds, and whether a file can be opened and written to.
pub record Disk : Type 0 where
  pub files : Assoc Bytes
  pub can_open : Bytes → Bool
  pub can_write : Bytes → Bool

-- `file` is the path of the open file.
pub record Logger : Type 0 where
  pub logs_dir : Bytes
  pub file : Option Bytes
  pub cur_date : Bytes
  pub closed : Bool

-- `logger.New`, where the directory can be made.
unfoldable pub new_logger : Bytes → Logger
new_logger logs_dir = record { logs_dir = logs_dir; file = none; cur_date = []; closed = false }

unfoldable pub format_date : Time → Bytes
format_date t = padded 4 t.year ++ (b'-' ∷ (padded 2 t.month ++ (b'-' ∷ padded 2 t.day)))

-- `filepath.Join` with a directory that is already clean.
unfoldable pub log_path : Bytes → Bytes → Bytes
log_path logs_dir date = logs_dir ++ (codes "/chat_" ++ (date ++ codes ".log"))

-- `FilePath`; a nil logger has no path.
unfoldable pub file_path : Option Logger → Bytes → Bytes
file_path none date = []
file_path (some l) date = log_path l.logs_dir date

-- `O_CREATE|O_APPEND`: the content of the file, empty if it is new.
abbrev pub content_of : Bytes → Assoc Bytes → Bytes
content_of path files = elim (lookup path files) [ none ↦ [] | some text ↦ text ]

is_some : Option Bytes → Bool
is_some none = false
is_some (some _) = true

-- Whether it failed stands last.
unfoldable pub ensure_file : Bytes → Logger → Disk → Logger × Disk × Bool
unfolding is_some
ensure_file date l d =
    if bytes_eq l.cur_date date && is_some l.file
    then (l, d, false)
    else if d.can_open (log_path l.logs_dir date)
    then (
      record l { file = some (log_path l.logs_dir date); cur_date = date },
      record d {
        files =
            insert (log_path l.logs_dir date) (content_of (log_path l.logs_dir date) d.files)
              d.files;
      },
      false,
    )
    else (record l { file = none }, d, true)

write_string : Bytes → Option Bytes → Disk → Disk
write_string text none d = d
write_string text (some path) d =
    if d.can_write path
    then record d { files = insert path (content_of path d.files ++ text) d.files }
    else d

-- `Log` on a logger that is not nil.
unfoldable pub log_message : Message → Logger → Disk → Logger × Disk
unfolding write_string
log_message msg l d =
    if l.closed
    then (l, d)
    else (let (l', d', failed) = ensure_file (format_date msg.timestamp) l d in
        if failed then (l', d') else (l', write_string (format_log_line msg ++ 10 ∷ []) l'.file d'))

-- `Close`.
unfoldable pub close_logger : Logger → Logger
close_logger l = record l { closed = true; file = none }
