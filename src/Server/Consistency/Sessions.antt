-- ===== src/Server/Consistency/Sessions.antt =====
-- The dispatch of a client's line, server/commands.go, as to the indexes.
use net_cat.Base.{Bytes, ltb, ℕ, false, ◌≡◌, refl, Option, none, some, inl, inr, Bool-cases}
use net_cat.Base.Assoc.{lookup}
use net_cat.Cmd.{CommandDef, level, get_privilege_level}
use net_cat.Client.{set_last_input}
use net_cat.Server.{Server, Now, on_client}
use net_cat.Server.Commands.Dispatch.{
  Handler, quit, list, rooms, stats, switch, create, help, name, whisper, kick, ban, mute, unmute,
  announce, promote, demote, run_handler, dispatch_handler, dispatch_def, dispatch_command,
  serve_parsed, serve_line,
}
use net_cat.Server.Index.{index, IsConsistent}
use net_cat.Server.Index.Keep.{on_client-index}
use net_cat.Server.Consistency.{
  kept, still_held, reply-index, handle_chat_message-index, cmd_list-index, cmd_rooms-index,
  cmd_stats-index, cmd_help-index, cmd_whisper-index,
}
use net_cat.Server.Consistency.Travel.{
  cmd_switch-IsConsistent, cmd_create-IsConsistent, cmd_name-IsConsistent,
}
use net_cat.Server.Consistency.Moderate.{cmd_kick-IsConsistent, cmd_ban-IsConsistent}
use net_cat.Server.Consistency.Status.{
  cmd_mute-index, cmd_unmute-index, cmd_announce-index, cmd_promote-index, cmd_demote-index,
}

module _ (now : Now) (c : ℕ) (args : Bytes) (s : Server) (v : IsConsistent (index s))
    (held : lookup (s.heap c).username s.clients ≡ some c) where
  run_handler-IsConsistent : (h : Handler) → IsConsistent (index (run_handler h now c args s).1)
  unfolding run_handler
  run_handler-IsConsistent quit = v
  run_handler-IsConsistent list = kept s _ (cmd_list-index now c s) v
  run_handler-IsConsistent rooms = kept s _ (cmd_rooms-index now c s) v
  run_handler-IsConsistent stats = kept s _ (cmd_stats-index now c s) v
  run_handler-IsConsistent switch = cmd_switch-IsConsistent now c s v held args
  run_handler-IsConsistent create = cmd_create-IsConsistent now c s v held args
  run_handler-IsConsistent help = kept s _ (cmd_help-index now c s) v
  run_handler-IsConsistent name = cmd_name-IsConsistent now c s v held args
  run_handler-IsConsistent whisper = kept s _ (cmd_whisper-index now c args s) v
  run_handler-IsConsistent kick = cmd_kick-IsConsistent now c args s v
  run_handler-IsConsistent ban = cmd_ban-IsConsistent now c args s v
  run_handler-IsConsistent mute = kept s _ (cmd_mute-index now c args s) v
  run_handler-IsConsistent unmute = kept s _ (cmd_unmute-index now c args s) v
  run_handler-IsConsistent announce = kept s _ (cmd_announce-index now c args s) v
  run_handler-IsConsistent promote = kept s _ (cmd_promote-index now c args s) v
  run_handler-IsConsistent demote = kept s _ (cmd_demote-index now c args s) v

  dispatch_handler-IsConsistent :
      (cmd_name : Bytes) (o : Option Handler)
      → IsConsistent (index (dispatch_handler o now c cmd_name args s).1)
  unfolding dispatch_handler
  dispatch_handler-IsConsistent cmd_name none = kept s _ (reply-index now c _ s) v
  dispatch_handler-IsConsistent cmd_name (some h) = run_handler-IsConsistent h

  dispatch_def-IsConsistent :
      (cmd_name : Bytes) (o : Option CommandDef)
      → IsConsistent (index (dispatch_def o now c cmd_name args s).1)
  unfolding dispatch_def
  dispatch_def-IsConsistent cmd_name none = kept s _ (reply-index now c _ s) v
  dispatch_def-IsConsistent cmd_name (some d) =
      elim (Bool-cases
        (ltb (level (get_privilege_level (s.heap c).admin false)) (level d.min_priv))) [
          | inl e ↦ rw (e, dispatch_def) (kept s _ (reply-index now c _ s) v)
          | inr e ↦ rw (e, dispatch_def) (dispatch_handler-IsConsistent cmd_name _)
        ]

  pub dispatch_command-IsConsistent :
      (cmd_name : Bytes) → IsConsistent (index (dispatch_command now c cmd_name args s).1)
  unfolding dispatch_command
  dispatch_command-IsConsistent cmd_name = dispatch_def-IsConsistent cmd_name _

pub set_last_input-index :
    (now : Now) (c : ℕ) (s : Server) → index (on_client c (set_last_input now.instant) s) ≡ index s
set_last_input-index now c s =
    unfold set_last_input in on_client-index c (set_last_input now.instant) s refl refl

serve_parsed-IsConsistent :
    (now : Now) (c : ℕ) (line : Bytes) (s : Server) (o : Option (Bytes × Bytes))
    → IsConsistent (index s)
    → lookup (s.heap c).username s.clients ≡ some c
    → IsConsistent (index (serve_parsed o now c line s).1)
unfolding serve_parsed
serve_parsed-IsConsistent now c line s none v held =
    kept s _ (handle_chat_message-index now c line s) v
serve_parsed-IsConsistent now c line s (some (cmd_name, args)) v held =
    dispatch_command-IsConsistent now c args s v held cmd_name

-- Whatever line a registered client sends, chat or any command, the indexes stay consistent.
pub serve_line-IsConsistent :
    (now : Now) (c : ℕ) (line : Bytes) (s : Server)
    → IsConsistent (index s)
    → lookup (s.heap c).username s.clients ≡ some c
    → IsConsistent (index (serve_line now c line s).1)
unfolding serve_line
serve_line-IsConsistent now c line s v held =
    let same = set_last_input-index now c s in
    serve_parsed-IsConsistent now c line _ _ (kept s _ same v) (still_held c s _ same held)
