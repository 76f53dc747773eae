-- ===== src/Server/Commands/Dispatch.antt =====
-- `clientCommandHandlers`, `dispatchCommand` and the loop body of `serveClientSession`.
use net_cat.Base.{
  Bytes, codes, ℕ, ltb, Bool, true, false, ◌∷◌, [], ◌++◌, Option, none, some, if◌then◌else◌,
}
use net_cat.Base.Assoc.{Assoc, lookup}
use net_cat.Cmd.{CommandDef, commands, get_privilege_level, level, parse_command}
use net_cat.Client.{set_last_input, is_admin}
use net_cat.Server.{Server, Now, on_client}
use net_cat.Server.Commands.{reply, handle_chat_message}
use net_cat.Server.Commands.Inform.{cmd_list, cmd_rooms, cmd_stats, cmd_help, cmd_whisper}
use net_cat.Server.Commands.Travel.{cmd_switch, cmd_create, cmd_name}
use net_cat.Server.Commands.Moderate.{
  cmd_kick, cmd_ban, cmd_mute, cmd_unmute, cmd_announce, cmd_promote, cmd_demote,
}

-- The handlers by name.
pub data Handler : Type 0 where
  quit list rooms stats switch create help name whisper kick ban mute unmute announce promote
        demote :
      Handler

unfoldable pub client_command_handlers : Assoc Handler
client_command_handlers =
    (codes "quit", quit)
    ∷ (codes "list", list)
    ∷ (codes "rooms", rooms)
    ∷ (codes "stats", stats)
    ∷ (codes "switch", switch)
    ∷ (codes "create", create)
    ∷ (codes "help", help)
    ∷ (codes "name", name)
    ∷ (codes "whisper", whisper)
    ∷ (codes "kick", kick)
    ∷ (codes "ban", ban)
    ∷ (codes "mute", mute)
    ∷ (codes "unmute", unmute)
    ∷ (codes "announce", announce)
    ∷ (codes "promote", promote)
    ∷ (codes "demote", demote)
    ∷ []

-- Whether the session ends, and the server.
unfoldable pub run_handler : Handler → Now → ℕ → Bytes → Server → Bool × Server
run_handler quit now c args s = (true, s)
run_handler list now c args s = (false, cmd_list now c s)
run_handler rooms now c args s = (false, cmd_rooms now c s)
run_handler stats now c args s = (false, cmd_stats now c s)
run_handler switch now c args s = (false, cmd_switch now c args s)
run_handler create now c args s = (false, cmd_create now c args s)
run_handler help now c args s = (false, cmd_help now c s)
run_handler name now c args s = (false, cmd_name now c args s)
run_handler whisper now c args s = (false, cmd_whisper now c args s)
run_handler kick now c args s = (false, cmd_kick now c args s)
run_handler ban now c args s = (false, cmd_ban now c args s)
run_handler mute now c args s = (false, cmd_mute now c args s)
run_handler unmute now c args s = (false, cmd_unmute now c args s)
run_handler announce now c args s = (false, cmd_announce now c args s)
run_handler promote now c args s = (false, cmd_promote now c args s)
run_handler demote now c args s = (false, cmd_demote now c args s)

unfoldable pub unknown_command : Bytes → Bytes
unknown_command cmd_name =
    codes "Unknown command: /" ++ (cmd_name ++ codes ". Use /help to see available commands.\n")

unfoldable pub dispatch_handler : Option Handler → Now → ℕ → Bytes → Bytes → Server → Bool × Server
unfolding unknown_command
dispatch_handler none now c cmd_name args s = (false, reply now c (unknown_command cmd_name) s)
dispatch_handler (some h) now c cmd_name args s = run_handler h now c args s

unfoldable pub dispatch_def : Option CommandDef → Now → ℕ → Bytes → Bytes → Server → Bool × Server
unfolding dispatch_handler unknown_command
dispatch_def none now c cmd_name args s = (false, reply now c (unknown_command cmd_name) s)
dispatch_def (some def) now c cmd_name args s =
    if ltb (level (get_privilege_level (is_admin (s.heap c)) false)) (level def.min_priv)
    then (false, reply now c (codes "Insufficient privileges.\n") s)
    else dispatch_handler (lookup cmd_name client_command_handlers) now c cmd_name args s

unfoldable pub dispatch_command : Now → ℕ → Bytes → Bytes → Server → Bool × Server
unfolding dispatch_def
dispatch_command now c cmd_name args s =
    dispatch_def (lookup cmd_name commands) now c cmd_name args s

unfoldable pub serve_parsed : Option (Bytes × Bytes) → Now → ℕ → Bytes → Server → Bool × Server
serve_parsed none now c line s = (false, handle_chat_message now c line s)
serve_parsed (some (cmd_name, args)) now c line s = dispatch_command now c cmd_name args s

-- What the session does with one line that it has read.
unfoldable pub serve_line : Now → ℕ → Bytes → Server → Bool × Server
unfolding serve_parsed
serve_line now c line s =
    serve_parsed (parse_command line) now c line (on_client c (set_last_input now.instant) s)
