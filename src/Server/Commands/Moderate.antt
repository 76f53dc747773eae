-- ===== src/Server/Commands/Moderate.antt =====
-- `/kick`, `/ban`, `/mute`, `/unmute`, `/announce`, `/promote` and `/demote`. The steps that follow
-- the checks are those of the operator's commands too, which sign with another name.
use net_cat.Base.{
  Bytes, codes, bytes_eq, trim_space, length, ℕ, zero, suc, not, List, [], ◌∷◌, ◌++◌, ◌==◌, Option,
  none, some, if◌then◌else◌, true, false,
}
use net_cat.Base.Assoc.{Assoc, lookup, insert}
use net_cat.Models.{Message, announcement}
use net_cat.Models.Format.{format_moderation, format_announcement}
use net_cat.Client.{close, force_disconnect_reason, set_muted, set_admin, is_admin, is_muted}
use net_cat.Server.{Server, Now, on_client, send_to, prompt_to}
use net_cat.Server.Names.{extract_host}
use net_cat.Server.Rooms.{
  record_room_event, broadcast_room, broadcast_all_rooms, admit_from_room_queue, get_room_names,
  remove_from_all_room_queues_by_ip,
}
use net_cat.Server.Clients.{get_client, remove_client, get_clients_by_ip}
use net_cat.Server.Moderation.{add_kick_cooldown, add_ban_ip}
use net_cat.Server.Admins.{add_admin, remove_admin}
use net_cat.Server.Commands.{reply, not_found, moderation_message}

-- The event in a room's history, and its notice to the members.
unfoldable pub moderation_event : Now → Bytes → Bytes → Bytes → Bytes → Server → Server
moderation_event now room target action admin s =
    broadcast_room room (format_moderation target action admin ++ codes "\n") []
      (record_room_event room (moderation_message now target action admin) s)

-- A client is taken off: its reason is forced, its indexes cleared, its room told, and its
-- connection closed.
unfoldable pub expel : Now → Bytes → Bytes → Bytes → ℕ → Server → Server
expel now admin action name target s =
    let room = (s.heap target).room in
    let removed = remove_client name (on_client target (force_disconnect_reason action) s) in
    let told = moderation_event now room name action admin removed in
    on_client target close (
      send_to target
        (codes "You have been " ++ (action ++ (codes " by " ++ (admin ++ codes ".\n")))) told)

unfoldable pub kick_client : Now → Bytes → Bytes → ℕ → Server → Server
kick_client now admin name target s =
    admit_from_room_queue (s.heap target).room
      (add_kick_cooldown now (s.heap target).ip (expel now admin (codes "kicked") name target s))

unfoldable pub kick_found : Now → ℕ → Bytes → Option ℕ → Server → Server
kick_found now c args none s = reply now c (not_found args) s
kick_found now c args (some target) s =
    if not (bytes_eq (s.heap target).room (s.heap c).room)
    then reply now c (codes "User '" ++ (args ++ codes "' is not in your room.\n")) s
    else prompt_to now c (kick_client now (s.heap c).username args target s)

unfoldable pub cmd_kick : Now → ℕ → Bytes → Server → Server
unfolding kick_found
cmd_kick now c args s =
    if bytes_eq args []
    then reply now c (codes "Missing target. Usage: /kick <name>\n") s
    else kick_found now c args (get_client args s) s

-- `roomsOpened[room]++`.
abbrev bump : Bytes → Assoc ℕ → Assoc ℕ
bump room opened = insert room (elim (lookup room opened) [ none ↦ 1 | some n ↦ suc n ]) opened

-- The loop over the clients at the banned address.
unfoldable pub ban_collateral : Now → Bytes → List ℕ → Assoc ℕ → Server → Assoc ℕ × Server
ban_collateral now admin [] opened s = (opened, s)
ban_collateral now admin (cc ∷ ccs) opened s =
    ban_collateral now admin ccs (bump (s.heap cc).room opened)
      (expel now admin (codes "banned") (s.heap cc).username cc s)

-- The queued clients at the address are told and closed.
unfoldable pub close_all : Bytes → List ℕ → Server → Server
close_all msg [] s = s
close_all msg (c ∷ cs) s = close_all msg cs (on_client c close (send_to c msg s))

unfoldable pub admit_times : ℕ → Bytes → Server → Server
admit_times zero room s = s
admit_times (suc n) room s = admit_times n room (admit_from_room_queue room s)

unfoldable pub admit_opened : Assoc ℕ → Server → Server
unfolding admit_times
admit_opened [] s = s
admit_opened ((room, n) ∷ opened) s = admit_opened opened (admit_times n room s)

banned_notice : Bytes → Bytes
banned_notice admin = codes "You have been banned by " ++ (admin ++ codes ".\n")

-- `exclude` is the name that the search at the address leaves out.
unfoldable pub ban_client : Now → Bytes → Bytes → Bytes → ℕ → Server → Server
unfolding banned_notice
ban_client now admin exclude name target s =
    let ip = (s.heap target).ip in
    let room = (s.heap target).room in
    let banned = add_ban_ip ip (expel now admin (codes "banned") name target s) in
    let (opened, expelled) =
      ban_collateral now admin (get_clients_by_ip (extract_host ip) exclude banned) ((room, 1) ∷ [])
        banned in
    let (queued, emptied) = remove_from_all_room_queues_by_ip ip expelled in
    admit_opened opened (close_all (banned_notice admin) queued emptied)

unfoldable pub ban_found : Now → ℕ → Bytes → Option ℕ → Server → Server
ban_found now c args none s = reply now c (not_found args) s
ban_found now c args (some target) s =
    prompt_to now c (ban_client now (s.heap c).username (s.heap c).username args target s)

unfoldable pub cmd_ban : Now → ℕ → Bytes → Server → Server
unfolding ban_found
cmd_ban now c args s =
    if bytes_eq args []
    then reply now c (codes "Missing target. Usage: /ban <name>\n") s
    else ban_found now c args (get_client args s) s

-- A change of status is recorded in the target's room and told to every room.
unfoldable pub status_event : Now → Bytes → Bytes → Bytes → ℕ → Server → Server
status_event now admin action name target s =
    broadcast_all_rooms (format_moderation name action admin ++ codes "\n")
      (record_room_event (s.heap target).room (moderation_message now name action admin) s)

unfoldable pub mute_client : Now → Bytes → Bytes → ℕ → Server → Server
mute_client now admin name target s =
    status_event now admin (codes "muted") name target (on_client target (set_muted true) s)

unfoldable pub unmute_client : Now → Bytes → Bytes → ℕ → Server → Server
unmute_client now admin name target s =
    status_event now admin (codes "unmuted") name target (on_client target (set_muted false) s)

unfoldable pub mute_found : Now → ℕ → Bytes → Option ℕ → Server → Server
mute_found now c args none s = reply now c (not_found args) s
mute_found now c args (some target) s =
    if is_muted (s.heap target)
    then reply now c (args ++ codes " is already muted.\n") s
    else prompt_to now c (mute_client now (s.heap c).username args target s)

unfoldable pub cmd_mute : Now → ℕ → Bytes → Server → Server
unfolding mute_found
cmd_mute now c args s =
    if bytes_eq args []
    then reply now c (codes "Missing target. Usage: /mute <name>\n") s
    else mute_found now c args (get_client args s) s

unfoldable pub unmute_found : Now → ℕ → Bytes → Option ℕ → Server → Server
unmute_found now c args none s = reply now c (not_found args) s
unmute_found now c args (some target) s =
    if not (is_muted (s.heap target))
    then reply now c (args ++ codes " is not muted.\n") s
    else prompt_to now c (unmute_client now (s.heap c).username args target s)

unfoldable pub cmd_unmute : Now → ℕ → Bytes → Server → Server
unfolding unmute_found
cmd_unmute now c args s =
    if bytes_eq args []
    then reply now c (codes "Missing target. Usage: /unmute <name>\n") s
    else unmute_found now c args (get_client args s) s

unfoldable pub announcement_message : Now → Bytes → Bytes → Message
announcement_message now admin text = record {
  timestamp = now.local;
  sender = [];
  content = text;
  type = announcement;
  extra = admin;
  room = [];
}

unfoldable pub record_in_rooms : List Bytes → Message → Server → Server
record_in_rooms [] msg s = s
record_in_rooms (room ∷ rooms) msg s = record_in_rooms rooms msg (record_room_event room msg s)

unfoldable pub announce_all : Now → Bytes → Bytes → Server → Server
unfolding announcement_message
announce_all now admin text s =
    broadcast_all_rooms (format_announcement text ++ codes "\n")
      (record_in_rooms (get_room_names s) (announcement_message now admin text) s)

unfoldable pub cmd_announce : Now → ℕ → Bytes → Server → Server
cmd_announce now c args s =
    if length (trim_space args) == 0
    then reply now c (codes "Usage: /announce <message>\n") s
    else prompt_to now c (announce_all now (s.heap c).username args s)

unfoldable pub promote_client : Now → Bytes → Bytes → ℕ → Server → Server
promote_client now admin name target s = status_event now admin (codes "promoted") name target (
    send_to target (codes "You have been promoted to admin.\n")
      (add_admin name (on_client target (set_admin true) s)))

unfoldable pub demote_client : Now → Bytes → Bytes → ℕ → Server → Server
demote_client now admin name target s = status_event now admin (codes "demoted") name target (
    send_to target (codes "Your admin privileges have been revoked.\n")
      (remove_admin name (on_client target (set_admin false) s)))

unfoldable pub promote_found : Now → ℕ → Bytes → Option ℕ → Server → Server
promote_found now c args none s = reply now c (not_found args) s
promote_found now c args (some target) s =
    if is_admin (s.heap target)
    then reply now c (args ++ codes " is already an admin.\n") s
    else prompt_to now c (promote_client now (s.heap c).username args target s)

unfoldable pub cmd_promote : Now → ℕ → Bytes → Server → Server
unfolding promote_found
cmd_promote now c args s =
    if bytes_eq args []
    then reply now c (codes "Missing target. Usage: /promote <name>\n") s
    else promote_found now c args (get_client args s) s

unfoldable pub demote_found : Now → ℕ → Bytes → Option ℕ → Server → Server
demote_found now c args none s = reply now c (not_found args) s
demote_found now c args (some target) s =
    if not (is_admin (s.heap target))
    then reply now c (args ++ codes " is not an admin.\n") s
    else prompt_to now c (demote_client now (s.heap c).username args target s)

unfoldable pub cmd_demote : Now → ℕ → Bytes → Server → Server
unfolding demote_found
cmd_demote now c args s =
    if bytes_eq args []
    then reply now c (codes "Missing target. Usage: /demote <name>\n") s
    else demote_found now c args (get_client args s) s
