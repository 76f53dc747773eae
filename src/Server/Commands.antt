-- ===== src/Server/Commands.antt =====
-- server/commands.go: the commands that a client types. Each takes the calling client's address.
pub mod Inform
pub mod Travel
pub mod Moderate
pub mod Dispatch
pub mod Chat
pub mod Capacity
pub mod Gap
use net_cat.Base.{
  Bytes, codes, bytes_eq, ltb, length, trim_space, ℕ, ◌++◌, [], if◌then◌else◌, Option, none, some,
  ◌==◌,
}
use net_cat.Models.{Message, MessageType, chat, moderation}
use net_cat.Models.Format.{display, format_moderation}
use net_cat.Client.{set_last_activity, is_muted}
use net_cat.Server.{Server, Now, on_client, send_to, prompt_to}
use net_cat.Server.Rooms.{record_room_event, broadcast_room}

-- The end of almost every branch: a notice, and a new prompt.
unfoldable pub reply : Now → ℕ → Bytes → Server → Server
reply now c msg s = prompt_to now c (send_to c msg s)

unfoldable pub chat_message : Now → Bytes → Bytes → Message
chat_message now sender line = record {
  timestamp = now.local;
  sender = sender;
  content = line;
  type = chat;
  extra = [];
  room = [];
}

unfoldable pub handle_chat_message : Now → ℕ → Bytes → Server → Server
unfolding chat_message
handle_chat_message now c line s =
    if length (trim_space line) == 0
    then prompt_to now c s
    else if ltb 2048 (length line)
    then reply now c (codes "Message too long (max 2048 characters).\n") s
    else if is_muted (s.heap c)
    then reply now c (codes "You are muted.\n") s
    else let room = (s.heap c).room in
      let username = (s.heap c).username in
      let msg = chat_message now username line in
      prompt_to now c (
        on_client c (set_last_activity now.instant)
          (broadcast_room room (display msg ++ codes "\n") username (record_room_event room msg s)))

unfoldable pub not_found : Bytes → Bytes
not_found name =
    codes "User '" ++ (name ++ codes "' not found. Use /list to see connected users.\n")

unfoldable pub moderation_message : Now → Bytes → Bytes → Bytes → Message
moderation_message now target action admin = record {
  timestamp = now.local;
  sender = target;
  content = action;
  type = moderation;
  extra = admin;
  room = [];
}
