-- ===== src/Cmd.antt =====
-- cmd/commands.go: the command registry and the command parser.
pub mod Laws
use net_cat.Base.{
  Bytes, codes, index_byte, trim_space, take, drop, ℕ, suc, Bool, true, false, List, [], ◌∷◌,
  Option, none, some, if◌then◌else◌, ◌==◌,
}
use net_cat.Base.Assoc.{Assoc, lookup}

pub data PrivilegeLevel : Type 0 where
  priv_user priv_admin priv_operator : PrivilegeLevel

-- The value of the constant.
abbrev pub level : PrivilegeLevel → ℕ
level priv_user = 0
level priv_admin = 1
level priv_operator = 2

pub record CommandDef : Type 0 where
  pub name : Bytes
  pub min_priv : PrivilegeLevel
  pub usage : Bytes
  pub description : Bytes

abbrev entry : Bytes → PrivilegeLevel → Bytes → Bytes → Bytes × CommandDef
entry name priv usage description =
    (name, record { name = name; min_priv = priv; usage = usage; description = description })

-- `Commands`.
unfoldable pub commands : Assoc CommandDef
commands =
    entry (codes "list") priv_user (codes "/list") (codes "List connected clients with idle times")
    ∷ entry (codes "quit") priv_user (codes "/quit") (codes "Disconnect from chat")
    ∷ entry (codes "name") priv_user (codes "/name <newname>") (codes "Change your display name")
    ∷ entry (codes "whisper") priv_user (codes "/whisper <name> <message>")
        (codes "Send a private message")
    ∷ entry (codes "help") priv_user (codes "/help") (codes "Show available commands")
    ∷ entry (codes "rooms") priv_user (codes "/rooms")
        (codes "List available rooms with client counts")
    ∷ entry (codes "stats") priv_user (codes "/stats") (codes "Show server statistics")
    ∷ entry (codes "switch") priv_user (codes "/switch <room>") (codes "Switch to another room")
    ∷ entry (codes "create") priv_user (codes "/create <room>")
        (codes "Create and switch to a new room")
    ∷ entry (codes "kick") priv_admin (codes "/kick <name>") (codes "Kick a user from chat")
    ∷ entry (codes "ban") priv_admin (codes "/ban <name>") (codes "Ban a user from chat")
    ∷ entry (codes "mute") priv_admin (codes "/mute <name>") (codes "Mute a user")
    ∷ entry (codes "unmute") priv_admin (codes "/unmute <name>") (codes "Unmute a user")
    ∷ entry (codes "announce") priv_admin (codes "/announce <message>")
        (codes "Broadcast an announcement")
    ∷ entry (codes "promote") priv_operator (codes "/promote <name>")
        (codes "Promote a user to admin")
    ∷ entry (codes "demote") priv_operator (codes "/demote <name>") (codes "Demote an admin")
    ∷ []

-- `CommandOrder`.
unfoldable pub command_order : List Bytes
command_order =
    codes "list"
    ∷ codes "rooms"
    ∷ codes "stats"
    ∷ codes "switch"
    ∷ codes "create"
    ∷ codes "quit"
    ∷ codes "name"
    ∷ codes "whisper"
    ∷ codes "help"
    ∷ codes "kick"
    ∷ codes "ban"
    ∷ codes "mute"
    ∷ codes "unmute"
    ∷ codes "announce"
    ∷ codes "promote"
    ∷ codes "demote"
    ∷ []

cut_command : Bytes → Option ℕ → Bytes × Bytes
cut_command rest none = (rest, [])
cut_command rest (some i) = (take i rest, trim_space (drop (suc i) rest))

parse_rest : Bytes → Bytes × Bytes
unfolding cut_command
parse_rest [] = ([], [])
parse_rest (b ∷ s) = cut_command (b ∷ s) (index_byte b' ' (b ∷ s))

-- `ParseCommand`: the name and the arguments, or `none` for input that is no command.
unfoldable pub parse_command : Bytes → Option (Bytes × Bytes)
unfolding parse_rest
parse_command [] = none
parse_command (b ∷ rest) = if b == b'/' then some (parse_rest rest) else none

unfoldable pub get_privilege_level : Bool → Bool → PrivilegeLevel
get_privilege_level is_admin is_operator =
    if is_operator then priv_operator else if is_admin then priv_admin else priv_user
