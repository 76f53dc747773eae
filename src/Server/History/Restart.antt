-- ===== src/Server/History/Restart.antt =====
-- `RecoverHistory` of server/history.go on a server whose logger has written the day's file.
use net_cat.Base.{
  Bytes, codes, bytes_eq, true, false, ◌≡◌, refl, ◌∙◌, ap, List, [], ◌++◌, map, Option, none, some,
  All,
}
use net_cat.Base.Assoc.{Assoc, lookup}
use net_cat.Base.Scanner.{scan_lines, joined}
use net_cat.Models.{Time, Message}
use net_cat.Models.Format.{format_log_line}
use net_cat.Logger.{Logger, log_path, file_path, content_of, format_date}
use net_cat.Server.{Server, Now}
use net_cat.Server.Rooms.{get_room_history}
use net_cat.Server.History.{recover_file, recover_lines, recover_history}
use net_cat.Server.History.Recovery.{IsReadable, recovered_in}
use net_cat.Server.History.Scan.{IsLine, recover_file-history}

abbrev pub logs : Bytes
logs = codes "logs"

-- A file that is missing and one that is empty are recovered alike.
recover_file-content :
    (read_time : Bytes → Option Time) (path : Bytes) (files : Assoc Bytes) (s : Server)
    → recover_file read_time (lookup path files) s
      ≡ recover_file read_time (some (content_of path files)) s
recover_file-content read_time path files s = present (lookup path files)
  where
    present :
        (o : Option Bytes)
        → recover_file read_time o s
          ≡ recover_file read_time (some (elim o [ none ↦ [] | some text ↦ text ])) s
    present none = unfold recover_file recover_lines scan_lines in refl
    present (some text) = refl

log_path-nonempty : (date : Bytes) → bytes_eq (log_path logs date) [] ≡ false
unfolding log_path codes bytes_eq
log_path-nonempty date = refl

recover_history-at :
    (read_time : Bytes → Option Time) (now : Now) (path : Bytes) (s : Server)
    → file_path s.logger (format_date now.local) ≡ path
    → bytes_eq path [] ≡ false
    → s.disk.can_open path ≡ true
    → recover_history read_time now s ≡ recover_file read_time (lookup path s.disk.files) s
unfolding recover_history
recover_history-at read_time now path s named nonempty can = rw (named, nonempty, can) refl

-- Recovery on a server whose logger's file holds the lines of these messages.
pub recover_history-lines :
    (read_time : Bytes → Option Time) (now : Now) (room : Bytes) (ms : List Message) (l : Logger)
    (s : Server)
    → s.logger ≡ some l
    → l.logs_dir ≡ logs
    → s.disk.can_open (log_path logs (format_date now.local)) ≡ true
    → content_of (log_path logs (format_date now.local)) s.disk.files
      ≡ joined (map format_log_line ms)
    → All (IsReadable read_time) ms
    → All IsLine (map format_log_line ms)
    → get_room_history room (recover_history read_time now s)
      ≡ get_room_history room s ++ recovered_in room s.default_room ms
unfolding file_path
recover_history-lines read_time now room ms l s e dir can text h lines =
    let path = log_path logs (format_date now.local) in
    ap {B = List Message} (get_room_history room) (
      recover_history-at read_time now path s (rw (e, dir) refl)
        (log_path-nonempty (format_date now.local)) can
      ∙ recover_file-content read_time path s.disk.files s)
    ∙ ap {B = List Message}
        (λ (x : Bytes). get_room_history room (recover_file read_time (some x) s)) text
    ∙ recover_file-history read_time room ms s h lines
