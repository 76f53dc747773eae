-- ===== src/Server/Operator.antt =====
-- server/operator.go: the operator's terminal. Its writer is never nil.
pub mod Dispatch
use net_cat.Base.{
  Bytes, codes, bytes_eq, trim_space, length, ℕ, suc, not, List, [], ◌∷◌, ◌++◌, ◌==◌, Option, none,
  some, if◌then◌else◌,
}
use net_cat.Base.Assoc.{Assoc, lookup}
use net_cat.Base.Decimal.{decimal}
use net_cat.Client.{close, is_admin, is_muted}
use net_cat.Cmd.{CommandDef, commands, command_order, parse_command, priv_user}
use net_cat.Server.{Server, Now, Room, QueueEntry, on_client, send_to}
use net_cat.Server.Names.{extract_host}
use net_cat.Server.Rooms.{
  get_room_names, get_room_client_count, get_or_create_room, remove_from_all_room_queues_by_ip,
  is_empty,
}
use net_cat.Server.Clients.{get_client}
use net_cat.Server.Moderation.{add_kick_cooldown, add_ban_ip}
use net_cat.Server.Commands.{not_found}
use net_cat.Server.Commands.Inform.{idle_line, sorted_entries, pad_right, help_line}
use net_cat.Server.Commands.Moderate.{
  kick_client, ban_client, mute_client, unmute_client, promote_client, demote_client, announce_all,
  close_all,
}

unfoldable pub operator_send : Bytes → Server → Server
operator_send msg s = record s { operator_output = s.operator_output ++ msg }

unfoldable pub operator_lines : List Bytes → Server → Server
operator_lines [] s = s
operator_lines (l ∷ ls) s = operator_lines ls (operator_send l s)

-- The name that the operator signs with.
abbrev pub operator_name : Bytes
operator_name = codes "Server"

idle_lines : List (Bytes × ℕ) → List Bytes
idle_lines [] = []
idle_lines (e ∷ es) = idle_line e ∷ idle_lines es

queue_lines : ℕ → List QueueEntry → Server → List Bytes
queue_lines i [] s = []
queue_lines i (e ∷ es) s =
    (codes "  [queued #"
      ++ (decimal (suc i) ++ (codes "] " ++ (extract_host (s.heap e.client).ip ++ codes "\n"))))
    ∷ queue_lines (suc i) es s

room_lines : Now → Bytes → Room → Server → List Bytes
room_lines now name r s =
    ((codes "Room "
        ++ (name ++ (codes " (" ++ (decimal (length r.clients) ++ codes " clients):\n"))))
      ∷ idle_lines (sorted_entries now s.heap r.clients))
    ++ queue_lines 0 r.queue s

list_rooms : Now → List Bytes → Server → List Bytes
list_rooms now [] s = []
list_rooms now (name ∷ names) s =
    room_lines now name (get_or_create_room name s) s ++ list_rooms now names s

unfoldable pub operator_cmd_list : Now → Server → Server
unfolding list_rooms room_lines queue_lines idle_lines
operator_cmd_list now s = operator_lines (list_rooms now (get_room_names s) s) s

operator_help_lines : List Bytes → List Bytes
operator_help_lines [] = []
operator_help_lines (name ∷ names) =
    help_line (elim (lookup name commands) [
      | none ↦ record { name = []; min_priv = priv_user; usage = []; description = [] }
      | some def ↦ def
    ])
    ∷ operator_help_lines names

unfoldable pub operator_cmd_help : Server → Server
unfolding operator_help_lines
operator_cmd_help s =
    operator_lines (codes "Available commands:\n" ∷ operator_help_lines command_order) s

operator_room_lines : List Bytes → Server → List Bytes
operator_room_lines [] s = []
operator_room_lines (name ∷ names) s =
    (codes "  "
      ++ (name ++ (codes " (" ++ (decimal (get_room_client_count name s) ++ codes " clients)\n"))))
    ∷ operator_room_lines names s

unfoldable pub operator_cmd_rooms : Server → Server
unfolding operator_room_lines
operator_cmd_rooms s =
    operator_lines (codes "Available rooms:\n" ∷ operator_room_lines (get_room_names s) s) s

queued_notice : Bytes → Bytes → Bytes
queued_notice args action =
    codes "Queued user(s) from IP "
    ++ (extract_host args ++ (codes " have been " ++ (action ++ codes ".\n")))

-- The target is no connected user: it is taken as the address of queued clients.
unfoldable pub operator_kick_queued : Now → Bytes → Server → Server
unfolding queued_notice
operator_kick_queued now args s =
    let (removed, s') = remove_from_all_room_queues_by_ip args s in
    if is_empty removed
    then operator_send (not_found args) s'
    else operator_send (queued_notice args (codes "kicked")) (
        add_kick_cooldown now args
          (close_all (codes "You have been kicked by Server.\n") removed s'))

unfoldable pub operator_kick_found : Now → Bytes → Option ℕ → Server → Server
unfolding operator_kick_queued
operator_kick_found now args none s = operator_kick_queued now args s
operator_kick_found now args (some target) s =
    operator_send (args ++ codes " has been kicked.\n")
      (kick_client now operator_name args target s)

missing_target : Bytes → Bytes
missing_target name = codes "Missing target. Usage: /" ++ (name ++ codes " <name>\n")

unfoldable pub operator_cmd_kick : Now → Bytes → Server → Server
unfolding operator_kick_found missing_target
operator_cmd_kick now args s =
    if bytes_eq args []
    then operator_send (missing_target (codes "kick")) s
    else operator_kick_found now args (get_client args s) s

unfoldable pub operator_ban_queued : Bytes → Server → Server
unfolding queued_notice
operator_ban_queued args s =
    let (removed, s') = remove_from_all_room_queues_by_ip args s in
    if is_empty removed
    then operator_send (not_found args) s'
    else operator_send (queued_notice args (codes "banned"))
        (add_ban_ip args (close_all (codes "You have been banned by Server.\n") removed s'))

unfoldable pub operator_ban_found : Now → Bytes → Option ℕ → Server → Server
unfolding operator_ban_queued
operator_ban_found now args none s = operator_ban_queued args s
operator_ban_found now args (some target) s =
    operator_send (args ++ codes " has been banned.\n")
      (ban_client now operator_name [] args target s)

unfoldable pub operator_cmd_ban : Now → Bytes → Server → Server
unfolding operator_ban_found missing_target
operator_cmd_ban now args s =
    if bytes_eq args []
    then operator_send (missing_target (codes "ban")) s
    else operator_ban_found now args (get_client args s) s

unfoldable pub operator_mute_found : Now → Bytes → Option ℕ → Server → Server
operator_mute_found now args none s = operator_send (not_found args) s
operator_mute_found now args (some target) s =
    if is_muted (s.heap target)
    then operator_send (args ++ codes " is already muted.\n") s
    else operator_send (args ++ codes " has been muted.\n")
        (mute_client now operator_name args target s)

unfoldable pub operator_cmd_mute : Now → Bytes → Server → Server
unfolding operator_mute_found missing_target
operator_cmd_mute now args s =
    if bytes_eq args []
    then operator_send (missing_target (codes "mute")) s
    else operator_mute_found now args (get_client args s) s

unfoldable pub operator_unmute_found : Now → Bytes → Option ℕ → Server → Server
operator_unmute_found now args none s = operator_send (not_found args) s
operator_unmute_found now args (some target) s =
    if not (is_muted (s.heap target))
    then operator_send (args ++ codes " is not muted.\n") s
    else operator_send (args ++ codes " has been unmuted.\n")
        (unmute_client now operator_name args target s)

unfoldable pub operator_cmd_unmute : Now → Bytes → Server → Server
unfolding operator_unmute_found missing_target
operator_cmd_unmute now args s =
    if bytes_eq args []
    then operator_send (missing_target (codes "unmute")) s
    else operator_unmute_found now args (get_client args s) s

unfoldable pub operator_cmd_announce : Now → Bytes → Server → Server
operator_cmd_announce now args s =
    if length (trim_space args) == 0
    then operator_send (codes "Usage: /announce <message>\n") s
    else operator_send (codes "Announcement sent.\n") (announce_all now operator_name args s)

unfoldable pub operator_promote_found : Now → Bytes → Option ℕ → Server → Server
operator_promote_found now args none s = operator_send (not_found args) s
operator_promote_found now args (some target) s =
    if is_admin (s.heap target)
    then operator_send (args ++ codes " is already an admin.\n") s
    else operator_send (args ++ codes " has been promoted to admin.\n")
        (promote_client now operator_name args target s)

unfoldable pub operator_cmd_promote : Now → Bytes → Server → Server
unfolding operator_promote_found missing_target
operator_cmd_promote now args s =
    if bytes_eq args []
    then operator_send (missing_target (codes "promote")) s
    else operator_promote_found now args (get_client args s) s

unfoldable pub operator_demote_found : Now → Bytes → Option ℕ → Server → Server
operator_demote_found now args none s = operator_send (not_found args) s
operator_demote_found now args (some target) s =
    if not (is_admin (s.heap target))
    then operator_send (args ++ codes " is not an admin.\n") s
    else operator_send (args ++ codes " has been demoted.\n")
        (demote_client now operator_name args target s)

unfoldable pub operator_cmd_demote : Now → Bytes → Server → Server
unfolding operator_demote_found missing_target
operator_cmd_demote now args s =
    if bytes_eq args []
    then operator_send (missing_target (codes "demote")) s
    else operator_demote_found now args (get_client args s) s
