-- ===== src/Server/History/Recovery.antt =====
-- Recovery from log lines, in `RecoverHistory` of server/history.go.
use net_cat.Base.{
  Bytes, bytes_eq, ◌≡◌, refl, sym, ◌∙◌, ap, List, [], ◌∷◌, ◌++◌, map, trim_space, trim_left,
  append_assoc, append-nil, Option, some, if◌then◌else◌, All, arith,
}
use net_cat.Models.{Time, Message, is_server_event}
use net_cat.Models.Format.{format_timestamp, format_log_line}
use net_cat.Models.Parse.{ok, parse_log_line, parse_trimmed}
use net_cat.Models.RoundTrip.{parse-format}
use net_cat.Models.RoundTrip.Loggable.{IsLoggable}
use net_cat.Server.{Server}
use net_cat.Server.Rooms.{add_room_history, get_room_history}
use net_cat.Server.Rooms.History.{get_room_history-add_room_history}
use net_cat.Server.History.{room_or_default, recover_message, recover_line, recover_lines}

-- What a room gets of the messages in a log: its own and, for the default room, those without a
-- room; no server events.
abbrev pub home : Bytes → Message → Bytes
home default_room m = if bytes_eq m.room [] then default_room else m.room

abbrev pub recovered_in : Bytes → Bytes → List Message → List Message
recovered_in room default_room [] = []
recovered_in room default_room (m ∷ ms) =
    if is_server_event m.type
    then recovered_in room default_room ms
    else if bytes_eq (home default_room m) room
    then record m { room = home default_room m } ∷ recovered_in room default_room ms
    else recovered_in room default_room ms

add_room_history-default_room :
    (name : Bytes) (m : Message) (s : Server)
    → (add_room_history name m s).default_room ≡ s.default_room
unfolding add_room_history
add_room_history-default_room name m s = refl

module _ (read_time : Bytes → Option Time) where
  -- A message whose line can be read back.
  abbrev pub IsReadable : Message → Type 0
  IsReadable m = IsLoggable m × (read_time (format_timestamp m.timestamp) ≡ some m.timestamp)

  recover_message-history :
      (room : Bytes) (m : Message) (s : Server)
      → get_room_history room (recover_message read_time (ok m) s)
        ≡ get_room_history room s ++ recovered_in room s.default_room (m ∷ [])
  unfolding recover_message
  recover_message-history room m s = ground (
    arith,
    append-nil (get_room_history room s),
    get_room_history-add_room_history room (room_or_default m.room s)
        (record m { room = room_or_default m.room s }) s,
  )

  recover_message-default_room :
      (m : Message) (s : Server)
      → (recover_message read_time (ok m) s).default_room ≡ s.default_room
  unfolding recover_message
  recover_message-default_room m s = ground (
    arith,
    add_room_history-default_room (room_or_default m.room s)
        (record m { room = room_or_default m.room s }) s,
  )

  nonempty_line :
      (line : Bytes) (m : Message) (s : Server)
      → parse_log_line read_time line ≡ ok m
      → recover_line read_time line s ≡ recover_message read_time (ok m) s
  unfolding recover_line
  nonempty_line [] m s h = unfold parse_log_line parse_trimmed trim_space trim_left in cc
  nonempty_line (b ∷ line) m s h = rw h refl

  recovered_in-cons :
      (room d : Bytes) (m : Message) (ms : List Message)
      → recovered_in room d (m ∷ []) ++ recovered_in room d ms ≡ recovered_in room d (m ∷ ms)
  recovered_in-cons room d m ms = ground arith

  -- Recovering the lines of logged messages gives every room its messages back, in their order,
  -- behind what it had.
  pub recover_lines-history :
      (room : Bytes) (ms : List Message) (s : Server)
      → All IsReadable ms
      → get_room_history room (recover_lines read_time (map format_log_line ms) s)
        ≡ get_room_history room s ++ recovered_in room s.default_room ms
  unfolding recover_lines
  recover_lines-history room [] s h = sym (append-nil _)
  recover_lines-history room (m ∷ ms) s ((v, e), h) =
      let t = recover_message read_time (ok m) s in
      ap {B = List Message}
        (λ (u : Server). get_room_history room (recover_lines read_time (map format_log_line ms) u))
        (nonempty_line (format_log_line m) m s (parse-format read_time m v e))
      ∙ (recover_lines-history room ms t h
          ∙ ap (λ (d : Bytes). get_room_history room t ++ recovered_in room d ms)
              (recover_message-default_room m s)
          ∙ ap (λ (xs : List Message). xs ++ recovered_in room s.default_room ms)
              (recover_message-history room m s)
          ∙ append_assoc (get_room_history room s) _ _
          ∙ ap (◌++◌ (get_room_history room s)) (recovered_in-cons room s.default_room m ms))
