-- ===== src/Server/Course/Rooms.antt =====
-- The course of the operations of server/room.go that leave the queues alone.
use net_cat.Base.{
  Bytes, bytes_eq, ℕ, ◌≡◌, refl, List, [], ◌∷◌, Option, none, some, inl, inr, Option-cases,
}
use net_cat.Base.Assoc.{Assoc, lookup}
use net_cat.Models.{Message}
use net_cat.Server.{Server, Room, new_room}
use net_cat.Server.Rooms.{
  get_or_create_room, add_room_history, record_room_event, send_except, send_all, broadcast_room,
  broadcast_all_rooms, drop_member, enter_room, join_room,
}
use net_cat.Server.Course.{view, queue_in, queue_at, After, same, ◌⨾◌, either}
use net_cat.Server.Course.Keep.{put_room-After, log_to-After, send_to-After, on_client-After}

pub get_or_create_room-queue :
    (name : Bytes) (s : Server) → (get_or_create_room name s).queue ≡ queue_at name (view s)
unfolding get_or_create_room new_room
get_or_create_room-queue name s = of_room (lookup name s.rooms)
  where
    of_room :
        (o : Option Room)
        → (elim o as (λ x. Room) [ none ↦ new_room name | some r ↦ r ]).queue ≡ queue_in o
    of_room none = unfold new_room in refl
    of_room (some r) = refl

module _ {leaving : List ℕ} where
  pub add_room_history-After :
      (name : Bytes) (msg : Message) (s : Server) → After leaving (add_room_history name msg s) s
  unfolding add_room_history
  add_room_history-After name msg s = put_room-After name _ s (get_or_create_room-queue name s)

  pub record_room_event-After :
      (name : Bytes) (msg : Message) (s : Server) → After leaving (record_room_event name msg s) s
  unfolding record_room_event
  record_room_event-After name msg s = log_to-After _ _ ⨾ add_room_history-After name _ s

  send_except-After :
      (msg exclude : Bytes) (m : Assoc ℕ) (s : Server)
      → After leaving (send_except msg exclude m s) s
  unfolding send_except
  send_except-After msg exclude [] s = same
  send_except-After msg exclude ((name, c) ∷ m) s =
      send_except-After msg exclude m _
      ⨾ either (bytes_eq name exclude) same (send_to-After c msg s)

  pub send_all-After : (msg : Bytes) (m : Assoc ℕ) (s : Server) → After leaving (send_all msg m s) s
  unfolding send_all
  send_all-After msg [] s = same
  send_all-After msg ((name, c) ∷ m) s = send_all-After msg m _ ⨾ send_to-After c msg s

  pub broadcast_room-After :
      (name msg exclude : Bytes) (s : Server) → After leaving (broadcast_room name msg exclude s) s
  unfolding broadcast_room
  broadcast_room-After name msg exclude s = elim (Option-cases (lookup name s.rooms)) [
    | inl e ↦ rw (e, broadcast_room) same
    | inr (r, e) ↦ rw (e, broadcast_room) (send_except-After msg exclude r.clients s)
  ]

  pub broadcast_all_rooms-After :
      (msg : Bytes) (s : Server) → After leaving (broadcast_all_rooms msg s) s
  unfolding broadcast_all_rooms
  broadcast_all_rooms-After msg s = send_all-After msg s.clients s

  pub drop_member-After :
      (c : ℕ) (name : Bytes) (s : Server) → After leaving (drop_member c name s) s
  unfolding drop_member
  drop_member-After c name s =
      let room = (s.heap c).room in
      either (bytes_eq room []) same (elim (Option-cases (lookup room s.rooms)) [
        | inl e ↦ rw e same
        | inr (r, e) ↦ rw e (put_room-After room _ s (rw e refl))
      ])

  pub join_room-After : (c : ℕ) (room : Bytes) (s : Server) → After leaving (join_room c room s) s
  unfolding join_room enter_room
  join_room-After c room s =
      on_client-After c _ _ (λ h. h) (λ h. h) refl
      ⨾ put_room-After room _ _ (get_or_create_room-queue room _)
      ⨾ drop_member-After c _ s
