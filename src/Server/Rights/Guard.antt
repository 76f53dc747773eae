-- ===== src/Server/Rights/Guard.antt =====
-- The privilege check of `dispatchCommand` in server/commands.go, for a client that is no admin.
use net_cat.Base.{
  Bytes, codes, bytes_eq, bytes_eq_iff, trim_space, length, take, drop, ltb, leb, ℕ, suc, ◌≤◌, Bool,
  true, false, ◌&&◌, ◌≡◌, refl, ◌∙◌, [], ◌∷◌, Option, none, some, inl, inr, ◌==◌, if◌then◌else◌,
  arith, Bool-cases, Option-cases,
}
use net_cat.Base.Assoc.{Assoc, lookup}
use net_cat.Cmd.{CommandDef, commands, level, get_privilege_level}
use net_cat.Client.{set_last_activity, set_last_input}
use net_cat.Server.{Server, Now, on_client}
use net_cat.Server.Commands.{handle_chat_message}
use net_cat.Server.Commands.Inform.{
  cmd_list, cmd_rooms, cmd_stats, cmd_help, cmd_whisper, whisper_at, whisper_to,
}
use net_cat.Server.Commands.Dispatch.{
  Handler, quit, list, rooms, stats, switch, create, help, name, whisper, kick, ban, mute, unmute,
  announce, promote, demote, client_command_handlers, run_handler, dispatch_handler, dispatch_def,
  dispatch_command, serve_parsed, serve_line,
}
use net_cat.Server.Rights.{rights}
use net_cat.Server.Rights.Keep.{
  on_client-rights, send_to-rights, prompt_to-rights, reply-rights, send_lines-rights,
  record_room_event-rights, broadcast_room-rights,
}
use net_cat.Server.Rights.Travel.{cmd_switch-rights, cmd_create-rights, cmd_name-rights, not_admin}

-- The handlers of every user.
abbrev is_plain : Option Handler → Bool
is_plain none = true
is_plain (some kick) = false
is_plain (some ban) = false
is_plain (some mute) = false
is_plain (some unmute) = false
is_plain (some announce) = false
is_plain (some promote) = false
is_plain (some demote) = false
is_plain (some _) = true

-- The two tables agree: a command of at most the level `priv` is handled by a handler that passes
-- the test.
unfoldable pub agrees : ℕ → (Option Handler → Bool) → Assoc CommandDef → Bool
agrees priv test [] = true
agrees priv test ((k, d) ∷ m) =
    (if leb (level d.min_priv) priv then test (lookup k client_command_handlers) else true)
    && agrees priv test m

pub agrees-lookup :
    (priv : ℕ) (test : Option Handler → Bool) (m : Assoc CommandDef) (n : Bytes) (d : CommandDef)
    → agrees priv test m ≡ true
    → lookup n m ≡ some d
    → level d.min_priv ≤ priv
    → test (lookup n client_command_handlers) ≡ true
unfolding agrees lookup
agrees-lookup priv test [] n d a h l = cc
agrees-lookup priv test ((k, e) ∷ m) n d a h l =
    ground (arith, bytes_eq_iff k n, agrees-lookup priv test m n d)

commands-agree : agrees 0 is_plain commands ≡ true
unfolding agrees commands client_command_handlers lookup bytes_eq codes
commands-agree = refl

pub handle_chat_message-rights :
    (now : Now) (c : ℕ) (line : Bytes) (s : Server)
    → rights (handle_chat_message now c line s) ≡ rights s
unfolding handle_chat_message
handle_chat_message-rights now c line s = elim (Bool-cases (length (trim_space line) == 0)) [
  | inl a ↦ rw (a, handle_chat_message) (prompt_to-rights now c s)
  | inr a ↦ elim (Bool-cases (ltb 2048 (length line))) [
    | inl b ↦ rw (a, b, handle_chat_message) (reply-rights now c _ s)
    | inr b ↦ elim (Bool-cases (s.heap c).muted) [
      | inl m ↦ rw (a, b, m, handle_chat_message) (reply-rights now c _ s)
      | inr m ↦
          rw (a, b, m, handle_chat_message)
            (prompt_to-rights now c _
              ∙ unfold set_last_activity in
                on_client-rights c (set_last_activity now.instant) _ refl refl
                ∙ broadcast_room-rights _ _ _ _
                ∙ record_room_event-rights _ _ s)
    ]
  ]
]

pub cmd_list-rights : (now : Now) (c : ℕ) (s : Server) → rights (cmd_list now c s) ≡ rights s
unfolding cmd_list
cmd_list-rights now c s = elim (Option-cases (lookup (s.heap c).room s.rooms)) [
  | inl e ↦ rw (e, cmd_list) (prompt_to-rights now c s)
  | inr (r, e) ↦ rw (e, cmd_list) (prompt_to-rights now c _ ∙ send_lines-rights c _ s)
]

whisper_to-rights :
    (now : Now) (c : ℕ) (recipient message : Bytes) (o : Option ℕ) (s : Server)
    → rights (whisper_to now c recipient message o s) ≡ rights s
unfolding whisper_to
whisper_to-rights now c recipient message none s = reply-rights now c _ s
whisper_to-rights now c recipient message (some target) s =
    reply-rights now c _ _ ∙ send_to-rights target _ s

whisper_at-rights :
    (now : Now) (c : ℕ) (args : Bytes) (o : Option ℕ) (s : Server)
    → rights (whisper_at now c args o s) ≡ rights s
unfolding whisper_at
whisper_at-rights now c args none s = reply-rights now c _ s
whisper_at-rights now c args (some i) s =
    let message = trim_space (drop (suc i) args) in
    elim (Bool-cases (length (trim_space message) == 0)) [
      | inl a ↦ rw (a, whisper_at) (reply-rights now c _ s)
      | inr a ↦ elim (Bool-cases (ltb 2048 (length message))) [
        | inl b ↦ rw (a, b, whisper_at) (reply-rights now c _ s)
        | inr b ↦ elim (Bool-cases (bytes_eq (take i args) (s.heap c).username)) [
          | inl d ↦ rw (a, b, d, whisper_at) (reply-rights now c _ s)
          | inr d ↦ rw (a, b, d, whisper_at) (whisper_to-rights now c _ message _ s)
        ]
      ]
    ]

pub cmd_whisper-rights :
    (now : Now) (c : ℕ) (args : Bytes) (s : Server) → rights (cmd_whisper now c args s) ≡ rights s
unfolding cmd_whisper
cmd_whisper-rights now c args s = elim (Bool-cases (bytes_eq args [])) [
  | inl e ↦ rw (e, cmd_whisper) (reply-rights now c _ s)
  | inr e ↦ rw (e, cmd_whisper) (whisper_at-rights now c args _ s)
]

module _ (now : Now) (c : ℕ) (args : Bytes) (s : Server) (plain : (s.heap c).admin ≡ false) where
  run_handler-rights :
      (h : Handler) → is_plain (some h) ≡ true → rights (run_handler h now c args s).1 ≡ rights s
  unfolding run_handler cmd_rooms cmd_stats cmd_help
  run_handler-rights quit p = refl
  run_handler-rights list p = cmd_list-rights now c s
  run_handler-rights rooms p = prompt_to-rights now c _ ∙ send_lines-rights c _ s
  run_handler-rights stats p = prompt_to-rights now c _ ∙ send_lines-rights c _ s
  run_handler-rights switch p = cmd_switch-rights now c args s
  run_handler-rights create p = cmd_create-rights now c args s
  run_handler-rights help p = prompt_to-rights now c _ ∙ send_lines-rights c _ s
  run_handler-rights name p = cmd_name-rights now c s plain args
  run_handler-rights whisper p = cmd_whisper-rights now c args s
  run_handler-rights _ p = cc

  dispatch_handler-rights :
      (cmd_name : Bytes) (o : Option Handler)
      → is_plain o ≡ true
      → rights (dispatch_handler o now c cmd_name args s).1 ≡ rights s
  unfolding dispatch_handler
  dispatch_handler-rights cmd_name none p = reply-rights now c _ s
  dispatch_handler-rights cmd_name (some h) p = run_handler-rights h p

  -- A client that is no admin has the lowest level.
  lowest :
      (d : CommandDef)
      → ltb (level (get_privilege_level (s.heap c).admin false)) (level d.min_priv) ≡ false
      → level d.min_priv ≤ 0
  unfolding get_privilege_level
  lowest d h = ground arith

  dispatch_def-rights :
      (cmd_name : Bytes) (o : Option CommandDef)
      → lookup cmd_name commands ≡ o
      → rights (dispatch_def o now c cmd_name args s).1 ≡ rights s
  unfolding dispatch_def
  dispatch_def-rights cmd_name none h = reply-rights now c _ s
  dispatch_def-rights cmd_name (some d) h =
      elim (Bool-cases
        (ltb (level (get_privilege_level (s.heap c).admin false)) (level d.min_priv))) [
          | inl e ↦ rw (e, dispatch_def) (reply-rights now c _ s)
          | inr e ↦
              rw (e, dispatch_def)
                (dispatch_handler-rights cmd_name _
                  (agrees-lookup 0 is_plain commands cmd_name d commands-agree h (lowest d e)))
        ]

  dispatch_command-rights :
      (cmd_name : Bytes) → rights (dispatch_command now c cmd_name args s).1 ≡ rights s
  unfolding dispatch_command
  dispatch_command-rights cmd_name = dispatch_def-rights cmd_name _ refl

serve_parsed-rights :
    (now : Now) (c : ℕ) (line : Bytes) (o : Option (Bytes × Bytes)) (s : Server)
    → (s.heap c).admin ≡ false
    → rights (serve_parsed o now c line s).1 ≡ rights s
unfolding serve_parsed
serve_parsed-rights now c line none s plain = handle_chat_message-rights now c line s
serve_parsed-rights now c line (some (cmd_name, args)) s plain =
    dispatch_command-rights now c args s plain cmd_name

pub set_last_input-rights :
    (now : Now) (c : ℕ) (s : Server)
    → rights (on_client c (set_last_input now.instant) s) ≡ rights s
set_last_input-rights now c s =
    unfold set_last_input in on_client-rights c (set_last_input now.instant) s refl refl

-- Whatever line a client that is no admin types in its session, nobody becomes an admin or ceases
-- to be one, nobody is muted or unmuted, the list of known admins stays, and no address is banned
-- or blocked.
pub serve_line-rights :
    (now : Now) (c : ℕ) (line : Bytes) (s : Server)
    → (s.heap c).admin ≡ false
    → rights (serve_line now c line s).1 ≡ rights s
unfolding serve_line
serve_line-rights now c line s plain =
    let same = set_last_input-rights now c s in
    serve_parsed-rights now c line _ _ (not_admin c s _ same plain) ∙ same
