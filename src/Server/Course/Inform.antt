-- ===== src/Server/Course/Inform.antt =====
-- The course of the commands of server/commands.go that inform, and of chat.
use net_cat.Base.{
  Bytes, bytes_eq, trim_space, length, ltb, take, drop, ◌==◌, Bool-cases, ℕ, suc, List, [], ◌∷◌,
  Option, none, some, inl, inr, Option-cases, refl,
}
use net_cat.Base.Assoc.{lookup}
use net_cat.Client.{set_last_activity}
use net_cat.Server.{Server, Now}
use net_cat.Server.Commands.{reply, handle_chat_message}
use net_cat.Server.Commands.Inform.{
  send_lines, cmd_list, cmd_rooms, cmd_stats, cmd_help, cmd_whisper, whisper_at, whisper_to,
}
use net_cat.Server.Course.{After, same, ◌⨾◌, either}
use net_cat.Server.Course.Keep.{on_client-After, send_to-After, prompt_to-After}
use net_cat.Server.Course.Rooms.{record_room_event-After, broadcast_room-After}

module _ (leaving : List ℕ) where
  pub reply-After :
      (now : Now) (c : ℕ) (msg : Bytes) (s : Server) → After leaving (reply now c msg s) s
  unfolding reply
  reply-After now c msg s = prompt_to-After now c _ ⨾ send_to-After c msg s

  pub send_lines-After :
      (c : ℕ) (ls : List Bytes) (s : Server) → After leaving (send_lines c ls s) s
  unfolding send_lines
  send_lines-After c [] s = same
  send_lines-After c (l ∷ ls) s = send_lines-After c ls _ ⨾ send_to-After c l s

  pub handle_chat_message-After :
      (now : Now) (c : ℕ) (line : Bytes) (s : Server)
      → After leaving (handle_chat_message now c line s) s
  unfolding handle_chat_message set_last_activity
  handle_chat_message-After now c line s = elim (Bool-cases (length (trim_space line) == 0)) [
    | inl a ↦ rw (a, handle_chat_message) (prompt_to-After now c s)
    | inr a ↦ elim (Bool-cases (ltb 2048 (length line))) [
      | inl b ↦ rw (a, b, handle_chat_message) (reply-After now c _ s)
      | inr b ↦ elim (Bool-cases (s.heap c).muted) [
        | inl m ↦ rw (a, b, m, handle_chat_message) (reply-After now c _ s)
        | inr m ↦
            rw (a, b, m, handle_chat_message)
              (prompt_to-After now c _
                ⨾ on_client-After c (set_last_activity now.instant) _ (λ h. h) (λ h. h) refl
                ⨾ broadcast_room-After _ _ _ _
                ⨾ record_room_event-After _ _ s)
      ]
    ]
  ]

  pub cmd_list-After : (now : Now) (c : ℕ) (s : Server) → After leaving (cmd_list now c s) s
  unfolding cmd_list
  cmd_list-After now c s = elim (Option-cases (lookup (s.heap c).room s.rooms)) [
    | inl e ↦ rw (e, cmd_list) (prompt_to-After now c s)
    | inr (r, e) ↦ rw (e, cmd_list) (prompt_to-After now c _ ⨾ send_lines-After c _ s)
  ]

  pub cmd_rooms-After : (now : Now) (c : ℕ) (s : Server) → After leaving (cmd_rooms now c s) s
  unfolding cmd_rooms
  cmd_rooms-After now c s = prompt_to-After now c _ ⨾ send_lines-After c _ s

  pub cmd_stats-After : (now : Now) (c : ℕ) (s : Server) → After leaving (cmd_stats now c s) s
  unfolding cmd_stats
  cmd_stats-After now c s = prompt_to-After now c _ ⨾ send_lines-After c _ s

  pub cmd_help-After : (now : Now) (c : ℕ) (s : Server) → After leaving (cmd_help now c s) s
  unfolding cmd_help
  cmd_help-After now c s = prompt_to-After now c _ ⨾ send_lines-After c _ s

  whisper_to-After :
      (now : Now) (c : ℕ) (recipient message : Bytes) (o : Option ℕ) (s : Server)
      → After leaving (whisper_to now c recipient message o s) s
  unfolding whisper_to
  whisper_to-After now c recipient message none s = reply-After now c _ s
  whisper_to-After now c recipient message (some target) s =
      reply-After now c _ _ ⨾ send_to-After target _ s

  whisper_at-After :
      (now : Now) (c : ℕ) (args : Bytes) (o : Option ℕ) (s : Server)
      → After leaving (whisper_at now c args o s) s
  unfolding whisper_at
  whisper_at-After now c args none s = reply-After now c _ s
  whisper_at-After now c args (some i) s =
      let message = trim_space (drop (suc i) args) in
      elim (Bool-cases (length (trim_space message) == 0)) [
        | inl a ↦ rw (a, whisper_at) (reply-After now c _ s)
        | inr a ↦ elim (Bool-cases (ltb 2048 (length message))) [
          | inl b ↦ rw (a, b, whisper_at) (reply-After now c _ s)
          | inr b ↦ elim (Bool-cases (bytes_eq (take i args) (s.heap c).username)) [
            | inl d ↦ rw (a, b, d, whisper_at) (reply-After now c _ s)
            | inr d ↦ rw (a, b, d, whisper_at) (whisper_to-After now c _ message _ s)
          ]
        ]
      ]

  pub cmd_whisper-After :
      (now : Now) (c : ℕ) (args : Bytes) (s : Server) → After leaving (cmd_whisper now c args s) s
  unfolding cmd_whisper
  cmd_whisper-After now c args s =
      either _ (reply-After now c _ s) (whisper_at-After now c args _ s)
