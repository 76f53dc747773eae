-- ===== src/Server/Commands/Inform.antt =====
-- `/list`, `/rooms`, `/stats`, `/help` and `/whisper`, which change no room.
use net_cat.Base.{
  Bytes, codes, bytes_eq, index_byte, length, leb, ltb, trim_space, take, drop, ℕ, zero, suc, ◌-◌,
  ◌/◌, ◌%◌, ◌==◌, false, List, [], ◌∷◌, ◌++◌, map, Option, none, some, if◌then◌else◌,
}
use net_cat.Base.Assoc.{Assoc, lookup}
use net_cat.Base.Decimal.{decimal}
use net_cat.Base.Sort.{insertion_sort}
use net_cat.Models.Format.{format_whisper_receive, format_whisper_send}
use net_cat.Cmd.{CommandDef, commands, command_order, get_privilege_level, level, priv_user}
use net_cat.Client.{Client, get_last_activity, is_admin}
use net_cat.Server.{Server, Now, send_to, prompt_to, max_active_clients}
use net_cat.Server.Rooms.{get_room_names, get_room_client_count}
use net_cat.Server.Clients.{get_client}
use net_cat.Server.Commands.{reply, not_found}

-- `Truncate(time.Second)` and `String` of a duration in nanoseconds.
seconds_string : ℕ → Bytes
seconds_string n =
    if ltb n 60
    then decimal n ++ codes "s"
    else if ltb n 3600
    then decimal (n / 60) ++ (codes "m" ++ (decimal (n % 60) ++ codes "s"))
    else decimal (n / 3600)
      ++ (codes "h" ++ (decimal (n / 60 % 60) ++ (codes "m" ++ (decimal (n % 60) ++ codes "s"))))

unfoldable pub duration_string : ℕ → Bytes
unfolding seconds_string
duration_string d = seconds_string (d / 1_000_000_000)

-- The name and the idle time of each member.
unfoldable pub idle_entries : Now → (ℕ → Client) → Assoc ℕ → List (Bytes × ℕ)
idle_entries now heap [] = []
idle_entries now heap ((name, c) ∷ m) =
    (name, now.instant - get_last_activity (heap c)) ∷ idle_entries now heap m

unfoldable pub sorted_entries : Now → (ℕ → Client) → Assoc ℕ → List (Bytes × ℕ)
unfolding idle_entries
sorted_entries now heap m = insertion_sort (λ (e : Bytes × ℕ). e.0) (idle_entries now heap m)

unfoldable pub idle_line : Bytes × ℕ → Bytes
idle_line (name, idle) =
    codes "  " ++ (name ++ (codes " (idle: " ++ (duration_string idle ++ codes ")\n")))

-- One `Send` for each line.
unfoldable pub send_lines : ℕ → List Bytes → Server → Server
send_lines c [] s = s
send_lines c (l ∷ ls) s = send_lines c ls (send_to c l s)

-- "Room %s — connected clients:\n"; the dash is three bytes of UTF-8.
unfoldable pub list_title : Bytes → Bytes
list_title room =
    codes "Room " ++ (room ++ (b' ' ∷ 0xE2 ∷ 0x80 ∷ 0x94 ∷ codes " connected clients:\n"))

unfoldable pub cmd_list : Now → ℕ → Server → Server
cmd_list now c s = elim (lookup (s.heap c).room s.rooms) [
  | none ↦ prompt_to now c s
  | some r ↦ prompt_to now c (
      send_lines c
        (list_title (s.heap c).room ∷ map idle_line (sorted_entries now s.heap r.clients)) s)
]

unfoldable pub room_line : Bytes → Server → Bytes → Bytes
room_line current s name =
    codes "  "
    ++ (name
        ++ (codes " ("
            ++ (decimal (get_room_client_count name s)
                ++ (codes "/"
                    ++ (decimal max_active_clients
                        ++ (codes " users)"
                            ++ ((if bytes_eq name current then codes " (current)" else [])
                                ++ codes "\n")))))))

unfoldable pub cmd_rooms : Now → ℕ → Server → Server
cmd_rooms now c s = prompt_to now c (
    send_lines c (codes "Available rooms:\n" ∷ map (room_line (s.heap c).room s) (get_room_names s))
      s)

unfoldable pub cmd_stats : Now → ℕ → Server → Server
cmd_stats now c s = prompt_to now c (
    send_lines c
      (codes "Server statistics:\n"
        ∷ (codes "  Total connected clients: " ++ (decimal (length s.clients) ++ codes "\n"))
        ∷ (codes "  Number of rooms: " ++ (decimal (length s.rooms) ++ codes "\n"))
        ∷ (codes "  Server uptime: "
            ++ (duration_string (now.instant - s.start_time) ++ codes "\n"))
        ∷ [])
      s)

-- "%-30s": padded with spaces on the right.
unfoldable pub pad_right : ℕ → Bytes → Bytes
pad_right zero s = s
pad_right (suc n) [] = b' ' ∷ pad_right n []
pad_right (suc n) (b ∷ s) = b ∷ pad_right n s

unfoldable pub help_line : CommandDef → Bytes
unfolding pad_right
help_line def =
    codes "  " ++ (pad_right 30 def.usage ++ (codes " " ++ (def.description ++ codes "\n")))

-- A name that is not in the map gives the zero definition.
help_entry : ℕ → Option CommandDef → List Bytes
help_entry priv none =
    help_line (record { name = []; min_priv = priv_user; usage = []; description = [] }) ∷ []
help_entry priv (some def) = if leb (level def.min_priv) priv then help_line def ∷ [] else []

unfoldable pub help_lines : ℕ → List Bytes → List Bytes
unfolding help_entry
help_lines priv [] = []
help_lines priv (name ∷ names) = help_entry priv (lookup name commands) ++ help_lines priv names

unfoldable pub cmd_help : Now → ℕ → Server → Server
cmd_help now c s =
    let priv = level (get_privilege_level (is_admin (s.heap c)) false) in
    prompt_to now c (send_lines c (codes "Available commands:\n" ∷ help_lines priv command_order) s)

unfoldable pub whisper_to : Now → ℕ → Bytes → Bytes → Option ℕ → Server → Server
whisper_to now c recipient message none s = reply now c (not_found recipient) s
whisper_to now c recipient message (some target) s =
    reply now c (format_whisper_send now.local recipient message ++ codes "\n") (
      send_to target (format_whisper_receive now.local (s.heap c).username message ++ codes "\n") s)

missing_message : Bytes
missing_message = codes "Missing message. Usage: /whisper <name> <message>\n"

unfoldable pub whisper_at : Now → ℕ → Bytes → Option ℕ → Server → Server
unfolding missing_message
whisper_at now c args none s = reply now c missing_message s
whisper_at now c args (some i) s =
    let recipient = take i args in
    let message = trim_space (drop (suc i) args) in
    if length (trim_space message) == 0
    then reply now c missing_message s
    else if ltb 2048 (length message)
    then reply now c (codes "Message too long (max 2048 characters).\n") s
    else if bytes_eq recipient (s.heap c).username
    then reply now c (codes "Cannot whisper to yourself.\n") s
    else whisper_to now c recipient message (get_client recipient s) s

unfoldable pub cmd_whisper : Now → ℕ → Bytes → Server → Server
cmd_whisper now c args s =
    if bytes_eq args []
    then reply now c (codes "Missing recipient. Usage: /whisper <name> <message>\n") s
    else whisper_at now c args (index_byte b' ' args) s
