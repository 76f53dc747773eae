-- ===== src/Server/History.antt =====
-- server/history.go. Warnings to the standard error are not modelled.
pub mod Recovery
pub mod Scan
pub mod Restart
use net_cat.Base.{
  Bytes, codes, bytes_eq, length, ltb, ℕ, ◌*◌, ◌==◌, ◌||◌, ◌&&◌, not, List, [], ◌∷◌, ◌++◌, Option,
  none, some, if◌then◌else◌, Bool, true, false,
}
use net_cat.Base.Assoc.{Assoc, lookup}
use net_cat.Base.Scanner.{scan_lines}
use net_cat.Models.{Time, Message, is_server_event}
use net_cat.Models.Parse.{Result, ok, err, parse_log_line}
use net_cat.Logger.{format_date, file_path}
use net_cat.Server.{Server, Room, Now}
use net_cat.Server.Rooms.{add_room_history}

unfoldable pub clear_rooms : Assoc Room → Assoc Room
clear_rooms [] = []
clear_rooms ((name, r) ∷ rooms) = (name, record r { history = [] }) ∷ clear_rooms rooms

unfoldable pub clear_history : Server → Server
unfolding clear_rooms
clear_history s = record s { rooms = clear_rooms s.rooms }

abbrev pub room_or_default : Bytes → Server → Bytes
room_or_default room_name s = if bytes_eq room_name [] then s.default_room else room_name

unfoldable pub add_history : Message → Server → Server
add_history msg s = add_room_history (room_or_default msg.room s) msg s

all_histories : Assoc Room → List Message
all_histories [] = []
all_histories ((name, r) ∷ rooms) = r.history ++ all_histories rooms

unfoldable pub get_history : Server → List Message
unfolding all_histories
get_history s = all_histories s.rooms

-- `fmt.Sscanf` with the timestamp's format, followed by `time.Date` in the host's time zone.
module _ (read_time : Bytes → Option Time) where
  unfoldable pub recover_message : Result Message → Server → Server
  recover_message (err e) s = s
  recover_message (ok msg) s =
      if is_server_event msg.type
      then s
      else add_room_history (room_or_default msg.room s)
          (record msg { room = room_or_default msg.room s }) s

  -- The body of the loop over the lines.
  unfoldable pub recover_line : Bytes → Server → Server
  unfolding recover_message
  recover_line [] s = s
  recover_line (b ∷ line) s = recover_message (parse_log_line read_time (b ∷ line)) s

  unfoldable pub recover_lines : List Bytes → Server → Server
  recover_lines [] s = s
  recover_lines (line ∷ lines) s = recover_lines lines (recover_line line s)

  unfoldable pub recover_file : Option Bytes → Server → Server
  recover_file none s = s
  recover_file (some text) s = recover_lines (scan_lines [] text) s

  -- `RecoverHistory`.
  unfoldable pub recover_history : Now → Server → Server
  unfolding recover_file recover_lines
  recover_history now s =
      let path = file_path s.logger (format_date now.local) in
      if bytes_eq path [] || not (s.disk.can_open path)
      then s
      else recover_file (lookup path s.disk.files) s
