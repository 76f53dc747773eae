-- ===== src/Server/Rooms/History.antt =====
-- What reaches a room's history.
use net_cat.Base.{
  Bytes, bytes_eq, bytes_eq_iff, ℕ, ◌≡◌, refl, ◌∙◌, ap, List, [], ◌∷◌, ◌++◌, none, some, inl, inr,
  if◌then◌else◌, arith, Bool-cases, Option-cases,
}
use net_cat.Base.Assoc.{Assoc, lookup, lookup-insert}
use net_cat.Models.{Message}
use net_cat.Client.{Client}
use net_cat.Server.{Server, Room, Now, on_client, send_to, prompt_to, log_to, new_room}
use net_cat.Server.Rooms.{
  get_or_create_room, put_room, add_room_history, record_room_event, get_room_history, send_except,
  broadcast_room,
}

-- Sending changes no room.
pub on_client-rooms : (c : ℕ) (f : Client → Client) (s : Server) → (on_client c f s).rooms ≡ s.rooms
unfolding on_client
on_client-rooms c f s = refl

pub send_to-rooms : (c : ℕ) (msg : Bytes) (s : Server) → (send_to c msg s).rooms ≡ s.rooms
unfolding send_to on_client
send_to-rooms c msg s = refl

pub prompt_to-rooms : (now : Now) (c : ℕ) (s : Server) → (prompt_to now c s).rooms ≡ s.rooms
unfolding prompt_to on_client
prompt_to-rooms now c s = refl

pub log_to-rooms : (msg : Message) (s : Server) → (log_to msg s).rooms ≡ s.rooms
unfolding log_to
log_to-rooms msg s = elim (Option-cases s.logger) [ inl e ↦ rw e refl | inr (l, e) ↦ rw e refl ]

send_except-rooms :
    (msg exclude : Bytes) (m : Assoc ℕ) (s : Server) → (send_except msg exclude m s).rooms ≡ s.rooms
unfolding send_except
send_except-rooms msg exclude [] s = refl
send_except-rooms msg exclude ((name, c) ∷ m) s = elim (Bool-cases (bytes_eq name exclude)) [
  | inl e ↦ rw (e, send_except) (send_except-rooms msg exclude m s)
  | inr e ↦
      rw (e, send_except)
        (send_except-rooms msg exclude m (send_to c msg s) ∙ send_to-rooms c msg s)
]

pub broadcast_room-rooms :
    (name msg exclude : Bytes) (s : Server) → (broadcast_room name msg exclude s).rooms ≡ s.rooms
unfolding broadcast_room
broadcast_room-rooms name msg exclude s = elim (Option-cases (lookup name s.rooms)) [
  | inl e ↦ rw (e, broadcast_room) refl
  | inr (r, e) ↦ rw (e, broadcast_room) (send_except-rooms msg exclude r.clients s)
]

history_in : Bytes → Assoc Room → List Message
history_in name rooms = elim (lookup name rooms) [ none ↦ [] | some r ↦ r.history ]

-- Servers with the same rooms have the same histories.
pub same_history :
    (name : Bytes) (s t : Server)
    → t.rooms ≡ s.rooms
    → get_room_history name t ≡ get_room_history name s
unfolding get_room_history history_in
same_history name s t e = ap (history_in name) e

new_room-history : (name : Bytes) → (new_room name).history ≡ []
unfolding new_room
new_room-history name = refl

-- A message stands at the end of its room's history, and in no other; the room is made if it is
-- not there.
pub get_room_history-add_room_history :
    (room name : Bytes) (msg : Message) (s : Server)
    → get_room_history room (add_room_history name msg s) ≡ (
        if bytes_eq name room then get_room_history room s ++ msg ∷ [] else get_room_history room s)
unfolding get_room_history add_room_history put_room get_or_create_room
get_room_history-add_room_history room name msg s = ground (
  arith,
  lookup-insert name room
      (record (get_or_create_room name s) {
        history = (get_or_create_room name s).history ++ msg ∷ [];
      })
      s.rooms,
  bytes_eq_iff name room,
  new_room-history name,
)

pub get_room_history-record_room_event :
    (room name : Bytes) (msg : Message) (s : Server)
    → get_room_history room (record_room_event name msg s) ≡ (
        if bytes_eq name room
        then get_room_history room s ++ record msg { room = name } ∷ []
        else get_room_history room s)
unfolding record_room_event
get_room_history-record_room_event room name msg s =
    same_history room (add_room_history name (record msg { room = name }) s) _ (
      log_to-rooms (record msg { room = name })
        (add_room_history name (record msg { room = name }) s))
    ∙ get_room_history-add_room_history room name (record msg { room = name }) s
