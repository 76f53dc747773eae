-- ===== src/Server/Session.antt =====
-- server/handler.go: a connection's life as a state machine. A phase is the point at which
-- `handleConnection` blocks or gives way to other goroutines, and a step is what it does from one
-- such point to the next; `joining` is the gap between the capacity check and `JoinRoom`.
pub mod Steps
pub mod Endings
pub mod Admission
pub mod Lingering
use net_cat.Base.{
  Bytes, codes, bytes_eq, trim_space, length, ℕ, suc, ◌==◌, Bool, true, false, ◌||◌, List, [], ◌∷◌,
  ◌++◌, map, Option, none, some, if◌then◌else◌, inl, inr, ◌⊎◌,
}
use net_cat.Base.Decimal.{decimal}
use net_cat.Models.{Message, server_event}
use net_cat.Client.{close, set_last_input, set_echo_mode, set_admin, set_disconnect_reason}
use net_cat.Server.{
  Server, Now, Room, on_client, send_to, prompt_to, log_to, is_shutting_down, max_active_clients,
}
use net_cat.Server.Names.{validate_name, validate_room_name}
use net_cat.Server.Rooms.{
  get_or_create_room, put_room, join_room, get_room_names, get_room_client_count,
  check_room_capacity, admit_from_room_queue, delete_room_if_empty, remove_from_room_queue,
}
use net_cat.Server.Clients.{
  NameError, register_client, remove_client, is_reserved_name, track_client, untrack_client,
}
use net_cat.Server.Moderation.{is_ip_blocked}
use net_cat.Server.Admins.{is_known_admin}
use net_cat.Server.Commands.Inform.{send_lines}
use net_cat.Server.Commands.Travel.{announce_leave, announce_join, send_history}
use net_cat.Server.Commands.Dispatch.{serve_line}

pub data Phase : Type 0 where
  naming choosing chatting gone : Phase
  answering waiting : Bytes → ℕ → Phase
  joining : Bytes → Phase

-- How a read fails.
pub data ReadError : Type 0 where
  eof : ReadError
  other : Bytes → ReadError

abbrev name_prompt : Bytes
name_prompt = codes "[ENTER YOUR NAME]:"

abbrev room_prompt : Bytes
room_prompt = codes "[ENTER ROOM NAME] (Enter for 'general'):"

-- `WelcomeBanner`.
unfoldable pub welcome_banner : Bytes
welcome_banner =
    codes "Welcome to TCP-Chat!\n"
    ++ codes "         _nnnn_\n"
    ++ codes "        dGGGGMMb\n"
    ++ codes "       @p~qp~~qMb\n"
    ++ codes "       M|@||@) M|\n"
    ++ codes "       @,----.JM|\n"
    ++ codes "      JS^\\__/  qKL\n"
    ++ codes "     dZP        qKRb\n"
    ++ codes "    dZP          qKKb\n"
    ++ codes "   fZP            SMMb\n"
    ++ codes "   HZM            MMMM\n"
    ++ codes "   FqM            MMMM\n"
    ++ codes " __| \".        |\\dS\"qML\n"
    ++ codes " |    `.       | `' \\Zq\n"
    ++ codes "_)      \\.___.,|     .'\n"
    ++ codes "\\____   )MMMMMP|   .'\n"
    ++ codes "     `-'       `--'\n"

-- `c.Conn.Write`, past the queue, and `c.Close()`.
unfoldable pub write_and_close : ℕ → Bytes → Server → Server
write_and_close c text = on_client c (λ d. close (record d { sent = d.sent ++ text }))

unfoldable pub reject_shutdown : ℕ → Server → Bool × Server
unfolding write_and_close
reject_shutdown c s =
    if is_shutting_down s
    then (true, write_and_close c (codes "Server is shutting down. Goodbye!\n") s)
    else (false, s)

unfoldable pub reject_blocked : ℕ → Option Bytes × Server → Bool × Server
unfolding reject_shutdown write_and_close
reject_blocked c (some reason, s) = (true, write_and_close c reason s)
reject_blocked c (none, s) = reject_shutdown c s

-- Whether the connection was rejected.
unfoldable pub reject_connection : Now → ℕ → Server → Bool × Server
unfolding reject_blocked
reject_connection now c s = reject_blocked c (is_ip_blocked now (s.heap c).ip s)

unfoldable pub open_connection : Now → ℕ → Server → Phase × Server
open_connection now c s =
    let (rejected, s') = reject_connection now c (track_client c s) in
    if rejected
    then (gone, untrack_client c s')
    else (naming, send_to c (welcome_banner ++ name_prompt) s')

-- The message for a name that is refused.
unfoldable pub validate_requested_name : Bytes → Server → Option Bytes
validate_requested_name name s = elim (validate_name name) [
  | some problem ↦ some problem
  | none ↦
      if is_reserved_name name s
      then some (codes "Name '" ++ (name ++ codes "' is reserved."))
      else none
]

unfoldable pub restore_known_admin : ℕ → Server → Server
restore_known_admin c s =
    if is_known_admin (s.heap c).username s
    then send_to c (codes "Welcome back, admin!\n") (on_client c (set_admin true) s)
    else s

room_choice_line : Server → Bytes → Bytes
room_choice_line s name =
    codes "  "
    ++ (name
        ++ (codes " ("
            ++ (decimal (get_room_client_count name s)
                ++ (codes "/" ++ (decimal max_active_clients ++ codes " users)\n")))))

unfoldable pub send_room_selection : ℕ → Server → Server
unfolding room_choice_line
send_room_selection c s =
    send_to c room_prompt
      (send_lines c (codes "Available rooms:\n" ∷ map (room_choice_line s) (get_room_names s)) s)

unfoldable pub after_register : ℕ → NameError ⊎ Server → Server → Phase × Server
after_register c (inl problem) s =
    (naming, send_to c (codes "Name is already taken.\n" ++ name_prompt) s)
after_register c (inr registered) s =
    (choosing, send_room_selection c (restore_known_admin c registered))

unfoldable pub name_checked : Now → ℕ → Bytes → Option Bytes → Server → Phase × Server
unfolding after_register
name_checked now c name (some problem) s =
    (naming, send_to c (problem ++ (codes "\n" ++ name_prompt)) s)
name_checked now c name none s = after_register c (register_client now c name s) s

-- `registerClientName`, one round.
unfoldable pub register_client_name : Now → ℕ → Bytes → Server → Phase × Server
unfolding name_checked
register_client_name now c name s = name_checked now c name (validate_requested_name name s) s

-- The end of a client that has a name and no room.
unfoldable pub abandon : ℕ → Server → Phase × Server
abandon c s = (gone, untrack_client c (on_client c close (remove_client (s.heap c).username s)))

queue_message : Bytes → ℕ → Bytes
queue_message room pos =
    codes "Room '"
    ++ (room
        ++ (codes "' is full. You are #"
            ++ (decimal pos ++ codes " in the queue. Would you like to wait? (yes/no)\n")))

unfoldable pub enqueue_in : ℕ → Bytes → Room → Server → Phase × Server
unfolding queue_message
enqueue_in c room r s =
    let queue = r.queue ++ record { client = c; id = s.next_entry } ∷ [] in
    (
      answering room s.next_entry,
      send_to c (queue_message room (length queue))
          (record (put_room room (record r { queue = queue }) s) { next_entry = suc s.next_entry }),
    )

-- `checkOrQueueRoom` up to the read of the answer.
unfoldable pub check_or_queue_room : ℕ → Bytes → Server → Phase × Server
unfolding enqueue_in
check_or_queue_room c room s =
    if is_shutting_down s
    then abandon c s
    else if check_room_capacity room s
    then (joining room, s)
    else enqueue_in c room (get_or_create_room room s) s

unfoldable pub choose : ℕ → Bytes → Option Bytes → Server → Phase × Server
choose c room (some problem) s = (choosing, send_to c (problem ++ (codes "\n" ++ room_prompt)) s)
choose c room none s = check_or_queue_room c room s

-- `readRoomChoice`, one round.
unfoldable pub read_room_choice : ℕ → Bytes → Server → Phase × Server
unfolding choose
read_room_choice c line s =
    if bytes_eq (trim_space line) []
    then check_or_queue_room c s.default_room s
    else choose c (trim_space line) (validate_room_name (trim_space line)) s

-- The answer to the offer of a place in the queue.
unfoldable pub answer_queue : ℕ → Bytes → ℕ → Bytes → Server → Phase × Server
answer_queue c room id line s =
    if bytes_eq (trim_space line) (codes "yes")
    then (
      waiting room id,
      send_to c (codes "Waiting for a slot to open... (press Ctrl+C to cancel)\n") s,
    )
    else if bytes_eq (trim_space line) (codes "no")
    then abandon c (remove_from_room_queue room id s)
    else (answering room id, send_to c (codes "Invalid input. Please type 'yes' or 'no'.\n") s)
