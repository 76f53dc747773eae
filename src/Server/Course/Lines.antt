-- ===== src/Server/Course/Lines.antt =====
-- The course of a line that a session reads, server/handler.go and server/commands.go.
use net_cat.Base.{Bytes, ℕ, ltb, false, Bool-cases, inl, inr, Option, none, some, [], refl}
use net_cat.Cmd.{CommandDef, level, get_privilege_level}
use net_cat.Client.{set_last_input}
use net_cat.Server.{Server, Now}
use net_cat.Server.Commands.Dispatch.{
  Handler, quit, list, rooms, stats, switch, create, help, name, whisper, kick, ban, mute, unmute,
  announce, promote, demote, run_handler, dispatch_handler, dispatch_def, dispatch_command,
  serve_parsed, serve_line,
}
use net_cat.Server.Course.{After, same, ◌⨾◌}
use net_cat.Server.Course.Keep.{on_client-After}
use net_cat.Server.Course.Inform.{
  reply-After, handle_chat_message-After, cmd_list-After, cmd_rooms-After, cmd_stats-After,
  cmd_help-After, cmd_whisper-After,
}
use net_cat.Server.Course.Travel.{cmd_switch-After, cmd_create-After, cmd_name-After}
use net_cat.Server.Course.Moderate.{cmd_kick-After, cmd_ban-After}
use net_cat.Server.Course.Status.{
  cmd_mute-After, cmd_unmute-After, cmd_promote-After, cmd_demote-After, cmd_announce-After,
}

module _ (now : Now) (c : ℕ) (args : Bytes) (s : Server) where
  run_handler-After : (h : Handler) → After [] (run_handler h now c args s).1 s
  unfolding run_handler
  run_handler-After quit = same
  run_handler-After list = cmd_list-After [] now c s
  run_handler-After rooms = cmd_rooms-After [] now c s
  run_handler-After stats = cmd_stats-After [] now c s
  run_handler-After switch = cmd_switch-After [] now c args s
  run_handler-After create = cmd_create-After [] now c args s
  run_handler-After help = cmd_help-After [] now c s
  run_handler-After name = cmd_name-After [] now c args s
  run_handler-After whisper = cmd_whisper-After [] now c args s
  run_handler-After kick = cmd_kick-After now c args s
  run_handler-After ban = cmd_ban-After now c args s
  run_handler-After mute = cmd_mute-After [] now c args s
  run_handler-After unmute = cmd_unmute-After [] now c args s
  run_handler-After announce = cmd_announce-After [] now c args s
  run_handler-After promote = cmd_promote-After [] now c args s
  run_handler-After demote = cmd_demote-After [] now c args s

  dispatch_handler-After :
      (cmd_name : Bytes) (o : Option Handler)
      → After [] (dispatch_handler o now c cmd_name args s).1 s
  unfolding dispatch_handler
  dispatch_handler-After cmd_name none = reply-After [] now c _ s
  dispatch_handler-After cmd_name (some h) = run_handler-After h

  dispatch_def-After :
      (cmd_name : Bytes) (o : Option CommandDef)
      → After [] (dispatch_def o now c cmd_name args s).1 s
  unfolding dispatch_def
  dispatch_def-After cmd_name none = reply-After [] now c _ s
  dispatch_def-After cmd_name (some d) =
      elim (Bool-cases
        (ltb (level (get_privilege_level (s.heap c).admin false)) (level d.min_priv))) [
          | inl e ↦ rw (e, dispatch_def) (reply-After [] now c _ s)
          | inr e ↦ rw (e, dispatch_def) (dispatch_handler-After cmd_name _)
        ]

  dispatch_command-After :
      (cmd_name : Bytes) → After [] (dispatch_command now c cmd_name args s).1 s
  unfolding dispatch_command
  dispatch_command-After cmd_name = dispatch_def-After cmd_name _

serve_parsed-After :
    (now : Now) (c : ℕ) (line : Bytes) (s : Server) (o : Option (Bytes × Bytes))
    → After [] (serve_parsed o now c line s).1 s
unfolding serve_parsed
serve_parsed-After now c line s none = handle_chat_message-After [] now c line s
serve_parsed-After now c line s (some (cmd_name, args)) =
    dispatch_command-After now c args s cmd_name

pub serve_line-After :
    (now : Now) (c : ℕ) (line : Bytes) (s : Server) → After [] (serve_line now c line s).1 s
unfolding serve_line set_last_input
serve_line-After now c line s =
    serve_parsed-After now c line _ _
    ⨾ on_client-After c (set_last_input now.instant) s (λ h. h) (λ h. h) refl
