-- ===== src/Server/Commands/Travel.antt =====
-- `/switch`, `/create` and `/name`.
use net_cat.Base.{Bytes, codes, bytes_eq, ℕ, not, [], ◌++◌, map, Option, none, some, if◌then◌else◌}
use net_cat.Base.Assoc.{lookup}
use net_cat.Models.{Message, MessageType, join, leave, name_change}
use net_cat.Models.Format.{display, format_leave, format_join, format_name_change}
use net_cat.Client.{is_admin}
use net_cat.Server.{Server, Now, send_to, prompt_to}
use net_cat.Server.Names.{validate_name, validate_room_name}
use net_cat.Server.Rooms.{
  record_room_event, broadcast_room, join_room, admit_from_room_queue, delete_room_if_empty,
  get_room_history, check_room_capacity,
}
use net_cat.Server.Clients.{rename_client, is_reserved_name}
use net_cat.Server.Admins.{rename_admin}
use net_cat.Server.Commands.{reply}
use net_cat.Server.Commands.Inform.{send_lines}

-- A join or leave message.
unfoldable pub presence_message : Now → MessageType → Bytes → Bytes → Message
presence_message now type sender extra = record {
  timestamp = now.local;
  sender = sender;
  content = [];
  type = type;
  extra = extra;
  room = [];
}

unfoldable pub announce_leave : Now → Bytes → Bytes → Bytes → Server → Server
announce_leave now room username reason s =
    broadcast_room room (format_leave username ++ codes "\n") username
      (record_room_event room (presence_message now leave username reason) s)

unfoldable pub announce_join : Now → Bytes → Bytes → Server → Server
announce_join now room username s =
    broadcast_room room (format_join username ++ codes "\n") username
      (record_room_event room (presence_message now join username []) s)

-- The history of a room, a line for each message.
unfoldable pub send_history : ℕ → Bytes → Server → Server
send_history c room s =
    send_lines c (map (λ (m : Message). display m ++ codes "\n") (get_room_history room s)) s

unfoldable pub switch_client_room : Now → ℕ → Bytes → Server → Server
switch_client_room now c new_room s =
    let old_room = (s.heap c).room in
    let username = (s.heap c).username in
    let left = announce_leave now old_room username (codes "switched") s in
    let moved = join_room c new_room left in
    let tidied = delete_room_if_empty old_room (admit_from_room_queue old_room moved) in
    send_to c (codes "Switched to room '" ++ (new_room ++ codes "'.\n"))
      (announce_join now new_room username (send_history c new_room tidied))

unfoldable pub switch_to : Now → ℕ → Bytes → Option Bytes → Server → Server
switch_to now c target (some problem) s = reply now c (problem ++ codes "\n") s
switch_to now c target none s =
    if bytes_eq target (s.heap c).room
    then reply now c (codes "You are already in room '" ++ (target ++ codes "'.\n")) s
    else if not (check_room_capacity target s)
    then reply now c (codes "Room '" ++ (target ++ codes "' is full.\n")) s
    else prompt_to now c (switch_client_room now c target s)

unfoldable pub cmd_switch : Now → ℕ → Bytes → Server → Server
cmd_switch now c args s =
    if bytes_eq args []
    then reply now c (codes "Usage: /switch <room>\n") s
    else switch_to now c args (validate_room_name args) s

unfoldable pub create_room : Now → ℕ → Bytes → Option Bytes → Server → Server
create_room now c name (some problem) s = reply now c (problem ++ codes "\n") s
create_room now c name none s = elim (lookup name s.rooms) [
  | some r ↦
      reply now c
        (codes "Room '"
          ++ (name ++ (codes "' already exists. Use /switch " ++ (name ++ codes " to join it.\n"))))
        s
  | none ↦ prompt_to now c (switch_client_room now c name s)
]

unfoldable pub cmd_create : Now → ℕ → Bytes → Server → Server
cmd_create now c args s =
    if bytes_eq args []
    then reply now c (codes "Usage: /create <room>\n") s
    else create_room now c args (validate_room_name args) s

unfoldable pub name_change_message : Now → Bytes → Bytes → Message
name_change_message now old_name new_name = record {
  timestamp = now.local;
  sender = new_name;
  content = [];
  type = name_change;
  extra = old_name;
  room = [];
}

unfoldable pub finish_rename : Now → ℕ → Bytes → Bytes → Option Server → Server → Server
unfolding name_change_message
finish_rename now c old_name new_name none s = reply now c (codes "Name is already taken.\n") s
finish_rename now c old_name new_name (some renamed) s =
    let saved =
      (if is_admin (renamed.heap c) then rename_admin old_name new_name renamed else renamed) in
    let room = (saved.heap c).room in
    prompt_to now c (
      broadcast_room room (format_name_change old_name new_name ++ codes "\n") []
        (record_room_event room (name_change_message now old_name new_name) saved))

unfoldable pub rename_to : Now → ℕ → Bytes → Option Bytes → Server → Server
rename_to now c new_name (some problem) s = reply now c (problem ++ codes "\n") s
rename_to now c new_name none s =
    if is_reserved_name new_name s
    then reply now c (codes "Name '" ++ (new_name ++ codes "' is reserved.\n")) s
    else if bytes_eq new_name (s.heap c).username
    then reply now c (codes "You already have that name.\n") s
    else finish_rename now c (s.heap c).username new_name
        (rename_client c (s.heap c).username new_name s) s

unfoldable pub cmd_name : Now → ℕ → Bytes → Server → Server
cmd_name now c args s =
    if bytes_eq args []
    then reply now c (codes "Usage: /name <newname>\n") s
    else rename_to now c args (validate_name args) s
