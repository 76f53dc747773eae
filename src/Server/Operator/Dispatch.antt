-- ===== src/Server/Operator/Dispatch.antt =====
-- `OperatorDispatch` of server/operator.go.
use net_cat.Base.{
  Bytes, codes, bytes_eq, trim_space, [], ◌∷◌, ◌++◌, Option, none, some, if◌then◌else◌,
}
use net_cat.Base.Assoc.{Assoc, lookup}
use net_cat.Cmd.{CommandDef, commands, parse_command}
use net_cat.Server.{Server, Now, is_shutting_down}
use net_cat.Server.Operator.{
  operator_send, operator_cmd_list, operator_cmd_help, operator_cmd_rooms, operator_cmd_kick,
  operator_cmd_ban, operator_cmd_mute, operator_cmd_unmute, operator_cmd_announce,
  operator_cmd_promote, operator_cmd_demote,
}

inapplicable : Bytes → Bytes
inapplicable name =
    codes "The /" ++ (name ++ codes " command is not applicable to the server operator.\n")

-- `operatorInapplicableCommands`.
unfoldable pub operator_inapplicable_commands : Assoc Bytes
unfolding inapplicable
operator_inapplicable_commands =
    (codes "quit", inapplicable (codes "quit"))
    ∷ (codes "name", inapplicable (codes "name"))
    ∷ (codes "whisper", inapplicable (codes "whisper"))
    ∷ (codes "switch", inapplicable (codes "switch"))
    ∷ (codes "create", inapplicable (codes "create"))
    ∷ []

-- `operatorCommandHandlers`.
unfoldable pub operator_command_handlers : Assoc (Now → Bytes → Server → Server)
operator_command_handlers =
    (codes "list", λ now args. operator_cmd_list now)
    ∷ (codes "help", λ now args. operator_cmd_help)
    ∷ (codes "rooms", λ now args. operator_cmd_rooms)
    ∷ (codes "kick", operator_cmd_kick)
    ∷ (codes "ban", operator_cmd_ban)
    ∷ (codes "mute", operator_cmd_mute)
    ∷ (codes "unmute", operator_cmd_unmute)
    ∷ (codes "announce", operator_cmd_announce)
    ∷ (codes "promote", operator_cmd_promote)
    ∷ (codes "demote", operator_cmd_demote)
    ∷ []

unfoldable pub run_operator_handler :
    Option (Now → Bytes → Server → Server) → Now → Bytes → Bytes → Server → Server
run_operator_handler none now cmd_name args s =
    operator_send (codes "Unknown command: /" ++ (cmd_name ++ codes ".\n")) s
run_operator_handler (some handler) now cmd_name args s = handler now args s

unfoldable pub run_applicable : Option Bytes → Now → Bytes → Bytes → Server → Server
unfolding run_operator_handler
run_applicable (some message) now cmd_name args s = operator_send message s
run_applicable none now cmd_name args s =
    run_operator_handler (lookup cmd_name operator_command_handlers) now cmd_name args s

unfoldable pub run_known : Option CommandDef → Now → Bytes → Bytes → Server → Server
unfolding run_applicable
run_known none now cmd_name args s =
    operator_send
      (codes "Unknown command: /" ++ (cmd_name ++ codes ". Use /help to see available commands.\n"))
      s
run_known (some def) now cmd_name args s =
    run_applicable (lookup cmd_name operator_inapplicable_commands) now cmd_name args s

unfoldable pub run_parsed : Option (Bytes × Bytes) → Now → Server → Server
unfolding run_known
run_parsed none now s =
    operator_send (codes "Commands must start with /. Use /help to see available commands.\n") s
run_parsed (some (cmd_name, args)) now s = run_known (lookup cmd_name commands) now cmd_name args s

unfoldable pub operator_dispatch : Now → Bytes → Server → Server
unfolding run_parsed
operator_dispatch now input s =
    if bytes_eq (trim_space input) []
    then s
    else run_parsed (parse_command (trim_space input)) now s

-- `StartOperator`: the lines that its scanner reads, each at the time of its reading and on what
-- the server is by then; `none` once the server shuts down.
unfoldable pub operator_round : Now → Bytes → Server → Option Server
operator_round now line s = if is_shutting_down s then none else some (operator_dispatch now line s)
