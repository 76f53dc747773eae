-- ===== src/Server/Consistency.antt =====
-- The commands of server/commands.go that touch no index; the children have the others.
pub mod Travel
pub mod Moderate
pub mod Status
pub mod Sessions
pub mod Operate
pub mod OperatorLines
pub mod Connections
pub mod SessionSteps
use net_cat.Base.{
  Bytes, codes, bytes_eq, index_byte, trim_space, length, take, drop, ltb, ℕ, suc, Bool, true,
  false, ◌≡◌, refl, sym, ◌∙◌, ap, subst, List, [], ◌∷◌, ◌++◌, map, Option, none, some, inl, inr,
  if◌then◌else◌, ◌==◌, Bool-cases, Option-cases, arith,
}
use net_cat.Base.Assoc.{lookup}
use net_cat.Client.{Client, set_last_activity, set_last_input}
use net_cat.Logger.{Disk}
use net_cat.Server.{Server, Now, Room, new_room, new_server, on_client, send_to, prompt_to}
use net_cat.Server.Rooms.{record_room_event, broadcast_room}
use net_cat.Server.Clients.{get_client}
use net_cat.Server.Commands.{reply, handle_chat_message}
use net_cat.Server.Commands.Inform.{
  send_lines, cmd_list, cmd_rooms, cmd_stats, cmd_help, cmd_whisper, whisper_at, whisper_to,
}
use net_cat.Server.Index.{index, IsConsistent}
use net_cat.Server.Index.Keep.{
  on_client-index, send_to-index, prompt_to-index, record_room_event-index, broadcast_room-index,
}

new_room-empty : (n : Bytes) → lookup n (new_room (codes "general")).clients ≡ none
unfolding new_room lookup
new_room-empty n = refl

-- A new server has no client, so its indexes are consistent.
pub new_server-IsConsistent :
    (port : Bytes) (now : Now) (heap : ℕ → Client) (disk : Disk) (names : Option (List Bytes))
    → IsConsistent (index (new_server port now heap disk names))
unfolding new_server index lookup
new_server-IsConsistent port now heap disk names = record {
  named = λ n i h. cc;
  member_named = λ r n i h. ground (arith, new_room-empty n);
  member_placed = λ r n i h. ground (arith, new_room-empty n);
  placed = λ n i h k. cc;
  outside = λ n. unfold bytes_eq codes in refl;
  unreserved = λ n i h. cc;
}

-- The same indexes are as consistent.
pub kept : (s t : Server) → index t ≡ index s → IsConsistent (index s) → IsConsistent (index t)
kept s t e v = subst IsConsistent (sym e) v

-- A client that is registered stays so.
pub still_held :
    (c : ℕ) (s t : Server)
    → index t ≡ index s
    → lookup (s.heap c).username s.clients ≡ some c
    → lookup (t.heap c).username t.clients ≡ some c
unfolding index
still_held c s t e held = subst (λ x. x.client_at (x.username_at c) ≡ some c) (sym e) held

pub reply-index :
    (now : Now) (c : ℕ) (msg : Bytes) (s : Server) → index (reply now c msg s) ≡ index s
unfolding reply
reply-index now c msg s = prompt_to-index now c (send_to c msg s) ∙ send_to-index c msg s

pub send_lines-index : (c : ℕ) (ls : List Bytes) (s : Server) → index (send_lines c ls s) ≡ index s
unfolding send_lines
send_lines-index c [] s = refl
send_lines-index c (l ∷ ls) s = send_lines-index c ls (send_to c l s) ∙ send_to-index c l s

pub handle_chat_message-index :
    (now : Now) (c : ℕ) (line : Bytes) (s : Server)
    → index (handle_chat_message now c line s) ≡ index s
unfolding handle_chat_message
handle_chat_message-index now c line s = elim (Bool-cases (length (trim_space line) == 0)) [
  | inl a ↦ rw (a, handle_chat_message) (prompt_to-index now c s)
  | inr a ↦ elim (Bool-cases (ltb 2048 (length line))) [
    | inl b ↦ rw (a, b, handle_chat_message) (reply-index now c _ s)
    | inr b ↦ elim (Bool-cases (s.heap c).muted) [
      | inl m ↦ rw (a, b, m, handle_chat_message) (reply-index now c _ s)
      | inr m ↦
          rw (a, b, m, handle_chat_message)
            (prompt_to-index now c _
              ∙ unfold set_last_activity in
                on_client-index c (set_last_activity now.instant) _ refl refl
                ∙ broadcast_room-index _ _ _ _
                ∙ record_room_event-index _ _ s)
    ]
  ]
]

pub cmd_list-index : (now : Now) (c : ℕ) (s : Server) → index (cmd_list now c s) ≡ index s
unfolding cmd_list
cmd_list-index now c s = elim (Option-cases (lookup (s.heap c).room s.rooms)) [
  | inl e ↦ rw (e, cmd_list) (prompt_to-index now c s)
  | inr (r, e) ↦ rw (e, cmd_list) (prompt_to-index now c _ ∙ send_lines-index c _ s)
]

pub cmd_rooms-index : (now : Now) (c : ℕ) (s : Server) → index (cmd_rooms now c s) ≡ index s
unfolding cmd_rooms
cmd_rooms-index now c s = prompt_to-index now c _ ∙ send_lines-index c _ s

pub cmd_stats-index : (now : Now) (c : ℕ) (s : Server) → index (cmd_stats now c s) ≡ index s
unfolding cmd_stats
cmd_stats-index now c s = prompt_to-index now c _ ∙ send_lines-index c _ s

pub cmd_help-index : (now : Now) (c : ℕ) (s : Server) → index (cmd_help now c s) ≡ index s
unfolding cmd_help
cmd_help-index now c s = prompt_to-index now c _ ∙ send_lines-index c _ s

whisper_to-index :
    (now : Now) (c : ℕ) (recipient message : Bytes) (o : Option ℕ) (s : Server)
    → index (whisper_to now c recipient message o s) ≡ index s
unfolding whisper_to
whisper_to-index now c recipient message none s = reply-index now c _ s
whisper_to-index now c recipient message (some target) s =
    reply-index now c _ _ ∙ send_to-index target _ s

whisper_at-index :
    (now : Now) (c : ℕ) (args : Bytes) (o : Option ℕ) (s : Server)
    → index (whisper_at now c args o s) ≡ index s
unfolding whisper_at
whisper_at-index now c args none s = reply-index now c _ s
whisper_at-index now c args (some i) s =
    let message = trim_space (drop (suc i) args) in
    elim (Bool-cases (length (trim_space message) == 0)) [
      | inl a ↦ rw (a, whisper_at) (reply-index now c _ s)
      | inr a ↦ elim (Bool-cases (ltb 2048 (length message))) [
        | inl b ↦ rw (a, b, whisper_at) (reply-index now c _ s)
        | inr b ↦ elim (Bool-cases (bytes_eq (take i args) (s.heap c).username)) [
          | inl d ↦ rw (a, b, d, whisper_at) (reply-index now c _ s)
          | inr d ↦ rw (a, b, d, whisper_at) (whisper_to-index now c _ message _ s)
        ]
      ]
    ]

pub cmd_whisper-index :
    (now : Now) (c : ℕ) (args : Bytes) (s : Server) → index (cmd_whisper now c args s) ≡ index s
unfolding cmd_whisper
cmd_whisper-index now c args s = elim (Bool-cases (bytes_eq args [])) [
  | inl e ↦ rw (e, cmd_whisper) (reply-index now c _ s)
  | inr e ↦ rw (e, cmd_whisper) (whisper_at-index now c args _ s)
]
