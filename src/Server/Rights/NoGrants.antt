-- ===== src/Server/Rights/NoGrants.antt =====
-- The lines of a client, as to who is an admin.
use net_cat.Base.{
  Bytes, codes, bytes_eq, ltb, ℕ, ◌≤◌, Bool, true, false, ◌≡◌, refl, ◌∙◌, Option, none, some, inl,
  inr, arith, Bool-cases,
}
use net_cat.Base.Assoc.{lookup}
use net_cat.Cmd.{CommandDef, commands, level, get_privilege_level}
use net_cat.Server.{Server, Now}
use net_cat.Server.Commands.Inform.{cmd_rooms, cmd_stats, cmd_help}
use net_cat.Server.Commands.Dispatch.{
  Handler, quit, list, rooms, stats, switch, create, help, name, whisper, kick, ban, mute, unmute,
  announce, promote, demote, run_handler, dispatch_handler, dispatch_def, dispatch_command,
  serve_parsed, serve_line, client_command_handlers,
}
use net_cat.Server.Rights.Keep.{prompt_to-rights, reply-rights, send_lines-rights}
use net_cat.Server.Rights.Travel.{cmd_switch-rights, cmd_create-rights}
use net_cat.Server.Rights.Guard.{
  agrees, agrees-lookup, handle_chat_message-rights, cmd_list-rights, cmd_whisper-rights,
  set_last_input-rights,
}
use net_cat.Server.Rights.Grants.{admins_at, of_rights}
use net_cat.Server.Rights.Lines.{
  cmd_kick-admins, cmd_ban-admins, cmd_mute-admins, cmd_unmute-admins, cmd_announce-rights,
  cmd_name-admins,
}

-- The handlers that grant nothing.
abbrev grants_nothing : Option Handler → Bool
grants_nothing none = true
grants_nothing (some promote) = false
grants_nothing (some demote) = false
grants_nothing (some _) = true

commands-agree : agrees 1 grants_nothing commands ≡ true
unfolding agrees commands client_command_handlers lookup bytes_eq codes
commands-agree = refl

module _ (now : Now) (c : ℕ) (args : Bytes) (s : Server) where
  run_handler-admins :
      (h : Handler)
      → grants_nothing (some h) ≡ true
      → admins_at (run_handler h now c args s).1 ≡ admins_at s
  unfolding run_handler cmd_rooms cmd_stats cmd_help
  run_handler-admins quit p = refl
  run_handler-admins list p = of_rights s _ (cmd_list-rights now c s)
  run_handler-admins rooms p = of_rights s _ (prompt_to-rights now c _ ∙ send_lines-rights c _ s)
  run_handler-admins stats p = of_rights s _ (prompt_to-rights now c _ ∙ send_lines-rights c _ s)
  run_handler-admins switch p = of_rights s _ (cmd_switch-rights now c args s)
  run_handler-admins create p = of_rights s _ (cmd_create-rights now c args s)
  run_handler-admins help p = of_rights s _ (prompt_to-rights now c _ ∙ send_lines-rights c _ s)
  run_handler-admins name p = cmd_name-admins now c args s
  run_handler-admins whisper p = of_rights s _ (cmd_whisper-rights now c args s)
  run_handler-admins kick p = cmd_kick-admins now c args s
  run_handler-admins ban p = cmd_ban-admins now c args s
  run_handler-admins mute p = cmd_mute-admins now c args s
  run_handler-admins unmute p = cmd_unmute-admins now c args s
  run_handler-admins announce p = of_rights s _ (cmd_announce-rights now c args s)
  run_handler-admins promote p = cc
  run_handler-admins demote p = cc

  dispatch_handler-admins :
      (cmd_name : Bytes) (o : Option Handler)
      → grants_nothing o ≡ true
      → admins_at (dispatch_handler o now c cmd_name args s).1 ≡ admins_at s
  unfolding dispatch_handler
  dispatch_handler-admins cmd_name none p = of_rights s _ (reply-rights now c _ s)
  dispatch_handler-admins cmd_name (some h) p = run_handler-admins h p

  -- A client is at most an admin.
  at_most_admin :
      (d : CommandDef)
      → ltb (level (get_privilege_level (s.heap c).admin false)) (level d.min_priv) ≡ false
      → level d.min_priv ≤ 1
  unfolding get_privilege_level
  at_most_admin d h = ground arith

  dispatch_def-admins :
      (cmd_name : Bytes) (o : Option CommandDef)
      → lookup cmd_name commands ≡ o
      → admins_at (dispatch_def o now c cmd_name args s).1 ≡ admins_at s
  unfolding dispatch_def
  dispatch_def-admins cmd_name none h = of_rights s _ (reply-rights now c _ s)
  dispatch_def-admins cmd_name (some d) h =
      elim (Bool-cases
        (ltb (level (get_privilege_level (s.heap c).admin false)) (level d.min_priv))) [
          | inl e ↦ rw (e, dispatch_def) (of_rights s _ (reply-rights now c _ s))
          | inr e ↦
              rw (e, dispatch_def)
                (dispatch_handler-admins cmd_name _ (
                  agrees-lookup 1 grants_nothing commands cmd_name d commands-agree h
                    (at_most_admin d e)))
        ]

  dispatch_command-admins :
      (cmd_name : Bytes) → admins_at (dispatch_command now c cmd_name args s).1 ≡ admins_at s
  unfolding dispatch_command
  dispatch_command-admins cmd_name = dispatch_def-admins cmd_name _ refl

serve_parsed-admins :
    (now : Now) (c : ℕ) (line : Bytes) (o : Option (Bytes × Bytes)) (s : Server)
    → admins_at (serve_parsed o now c line s).1 ≡ admins_at s
unfolding serve_parsed
serve_parsed-admins now c line none s = of_rights s _ (handle_chat_message-rights now c line s)
serve_parsed-admins now c line (some (cmd_name, args)) s =
    dispatch_command-admins now c args s cmd_name

-- Whatever line a client types in its session, an admin's included, the admin flags of all clients
-- stay as they are.
pub serve_line-admins :
    (now : Now) (c : ℕ) (line : Bytes) (s : Server)
    → admins_at (serve_line now c line s).1 ≡ admins_at s
unfolding serve_line
serve_line-admins now c line s =
    serve_parsed-admins now c line _ _ ∙ of_rights s _ (set_last_input-rights now c s)
