-- ===== src/Server/Commands/Chat.antt =====
-- What a chat line does to the histories of the rooms.
use net_cat.Base.{
  Bytes, bytes_eq, trim_space, length, ltb, ℕ, ◌≡◌, ◌∙◌, Bool, ◌&&◌, not, ◌==◌, [], ◌∷◌, ◌++◌, inl,
  inr, if◌then◌else◌, Bool-cases,
}
use net_cat.Client.{set_last_activity}
use net_cat.Server.{Server, Now, send_to}
use net_cat.Server.Rooms.{get_room_history}
use net_cat.Server.Rooms.History.{
  on_client-rooms, send_to-rooms, prompt_to-rooms, broadcast_room-rooms, same_history,
  get_room_history-record_room_event,
}
use net_cat.Server.Commands.{reply, chat_message, handle_chat_message}

-- A line that is sent on: more than white space, at most 2048 bytes, from a client not muted.
abbrev pub is_sent_on : ℕ → Bytes → Server → Bool
is_sent_on c line s =
    not (length (trim_space line) == 0) && (not (ltb 2048 (length line)) && not (s.heap c).muted)

pub reply-rooms :
    (now : Now) (c : ℕ) (msg : Bytes) (s : Server) → (reply now c msg s).rooms ≡ s.rooms
unfolding reply
reply-rooms now c msg s = prompt_to-rooms now c (send_to c msg s) ∙ send_to-rooms c msg s

-- A line that is sent on is recorded once, at the end of the history of the sender's room, under
-- the sender's name and with that room, and in no other history; any other line is recorded
-- nowhere.
pub handle_chat_message-history :
    (now : Now) (c : ℕ) (line room : Bytes) (s : Server)
    → get_room_history room (handle_chat_message now c line s) ≡ (
        if is_sent_on c line s && bytes_eq (s.heap c).room room
        then get_room_history room s
          ++ record (chat_message now (s.heap c).username line) { room = (s.heap c).room } ∷ []
        else get_room_history room s)
unfolding handle_chat_message
handle_chat_message-history now c line room s = elim (Bool-cases (length (trim_space line) == 0)) [
  | inl a ↦ rw (a, handle_chat_message) (same_history room s _ (prompt_to-rooms now c s))
  | inr a ↦ elim (Bool-cases (ltb 2048 (length line))) [
    | inl b ↦ rw (a, b, handle_chat_message) (same_history room s _ (reply-rooms now c _ s))
    | inr b ↦ elim (Bool-cases (s.heap c).muted) [
      | inl m ↦ rw (a, b, m, handle_chat_message) (same_history room s _ (reply-rooms now c _ s))
      | inr m ↦
          rw (a, b, m, handle_chat_message)
            (same_history room _ _ (
                prompt_to-rooms now c _
                ∙ on_client-rooms c (set_last_activity now.instant) _
                ∙ broadcast_room-rooms _ _ _ _)
              ∙ get_room_history-record_room_event room _ _ s)
    ]
  ]
]
