-- ===== src/Server/Index/Keep.antt =====
-- The operations of server/room.go and of messages, as to the indexes.
pub mod Queues
use net_cat.Base.{
  Bytes, bytes_eq, bytes_eq_iff, ℕ, true, ◌≡◌, refl, ◌∙◌, suc, List, [], ◌∷◌, ◌++◌, Option, none,
  some, inl, inr, ==_iff, arith, Bool-cases, Option-cases,
}
use mathlib.Core.Path.{fun_ext}
use net_cat.Base.Assoc.{Assoc, lookup, insert, delete, lookup-insert, lookup-delete}
use net_cat.Base.Heap.{update}
use net_cat.Models.{Message}
use net_cat.Client.{Client, WriteMsg, enqueue, send, send_prompt}
use net_cat.Server.{
  Server, Room, Now, QueueEntry, new_room, is_shutting_down, on_client, send_to, prompt_to, log_to,
}
use net_cat.Server.Rooms.{
  put_room, add_room_history, record_room_event, get_or_create_room, delete_room_if_empty, is_empty,
  send_except, send_all, broadcast_room, broadcast_all_rooms, send_positions, next_open, admit_next,
  drop_entry, admit_from_room_queue, remove_from_room_queue, split_queue, clear_room, remove_rooms,
  remove_from_all_room_queues_by_ip,
}
use net_cat.Server.Index.{index, member_in}

-- A change of a client that keeps its name and its room.
pub on_client-index :
    (c : ℕ) (f : Client → Client) (s : Server)
    → (f (s.heap c)).username ≡ (s.heap c).username
    → (f (s.heap c)).room ≡ (s.heap c).room
    → index (on_client c f s) ≡ index s
unfolding on_client index
on_client-index c f s hn hr = λ i. record {
  client_at = λ n. lookup n s.clients;
  member_at = λ r. member_in (lookup r s.rooms);
  username_at =
      fun_ext {f = λ d. (update s.heap c (f (s.heap c)) d).username} {g = λ d. (s.heap d).username}
        (λ d. same_name d) i;
  room_at =
      fun_ext {f = λ d. (update s.heap c (f (s.heap c)) d).room} {g = λ d. (s.heap d).room}
        (λ d. same_room d) i;
  reserved_at = (index s).reserved_at;
}
  where
    same_name : (d : ℕ) → (update s.heap c (f (s.heap c)) d).username ≡ (s.heap d).username
    same_name d = ground (arith, ==_iff c d)

    same_room : (d : ℕ) → (update s.heap c (f (s.heap c)) d).room ≡ (s.heap d).room
    same_room d = ground (arith, ==_iff c d)

-- A room is written back with the members that it had.
pub put_room-index :
    (name : Bytes) (r : Room) (s : Server)
    → ((n : Bytes) → lookup n r.clients ≡ member_in (lookup name s.rooms) n)
    → index (put_room name r s) ≡ index s
unfolding put_room index
put_room-index name r s h = λ i. record {
  client_at = λ n. lookup n s.clients;
  member_at =
      fun_ext {f = λ k. member_in (lookup k (insert name r s.rooms))}
        {g = λ k. member_in (lookup k s.rooms)} (λ k. fun_ext (λ n. same k n)) i;
  username_at = λ d. (s.heap d).username;
  room_at = λ d. (s.heap d).room;
  reserved_at = (index s).reserved_at;
}
  where
    same :
        (k n : Bytes)
        → member_in (lookup k (insert name r s.rooms)) n ≡ member_in (lookup k s.rooms) n
    same k n = ground (arith, lookup-insert name k r s.rooms, bytes_eq_iff name k, h n)

enqueue-username : (m : WriteMsg) (d : Client) → (enqueue m d).username ≡ d.username
unfolding enqueue
enqueue-username m d = ground arith

enqueue-room : (m : WriteMsg) (d : Client) → (enqueue m d).room ≡ d.room
unfolding enqueue
enqueue-room m d = ground arith

pub send_to-index : (c : ℕ) (msg : Bytes) (s : Server) → index (send_to c msg s) ≡ index s
unfolding send_to send
send_to-index c msg s =
    on_client-index c (send msg) s (enqueue-username _ (s.heap c)) (enqueue-room _ (s.heap c))

pub prompt_to-index : (now : Now) (c : ℕ) (s : Server) → index (prompt_to now c s) ≡ index s
unfolding prompt_to send_prompt
prompt_to-index now c s =
    on_client-index c (send_prompt _) s (enqueue-username _ (s.heap c)) (enqueue-room _ (s.heap c))

pub log_to-index : (msg : Message) (s : Server) → index (log_to msg s) ≡ index s
unfolding log_to index
log_to-index msg s = elim (Option-cases s.logger) [ inl e ↦ rw e refl | inr (l, e) ↦ rw e refl ]

member_in_new : (name n : Bytes) → lookup n (new_room name).clients ≡ none
unfolding new_room lookup
member_in_new name n = refl

pub get_or_create_room-members :
    (name n : Bytes) (s : Server)
    → lookup n (get_or_create_room name s).clients ≡ member_in (lookup name s.rooms) n
unfolding get_or_create_room
get_or_create_room-members name n s = ground (arith, member_in_new name n)

pub add_room_history-index :
    (name : Bytes) (msg : Message) (s : Server) → index (add_room_history name msg s) ≡ index s
unfolding add_room_history
add_room_history-index name msg s =
    put_room-index name _ s (λ n. get_or_create_room-members name n s)

pub record_room_event-index :
    (name : Bytes) (msg : Message) (s : Server) → index (record_room_event name msg s) ≡ index s
unfolding record_room_event
record_room_event-index name msg s =
    log_to-index _ (add_room_history name (record msg { room = name }) s)
    ∙ add_room_history-index name (record msg { room = name }) s

pub send_except-index :
    (msg exclude : Bytes) (m : Assoc ℕ) (s : Server) → index (send_except msg exclude m s) ≡ index s
unfolding send_except
send_except-index msg exclude [] s = refl
send_except-index msg exclude ((name, c) ∷ m) s = elim (Bool-cases (bytes_eq name exclude)) [
  | inl e ↦ rw (e, send_except) (send_except-index msg exclude m s)
  | inr e ↦
      rw (e, send_except)
        (send_except-index msg exclude m (send_to c msg s) ∙ send_to-index c msg s)
]

pub send_all-index : (msg : Bytes) (m : Assoc ℕ) (s : Server) → index (send_all msg m s) ≡ index s
unfolding send_all
send_all-index msg [] s = refl
send_all-index msg ((name, c) ∷ m) s =
    send_all-index msg m (send_to c msg s) ∙ send_to-index c msg s

pub broadcast_room-index :
    (name msg exclude : Bytes) (s : Server) → index (broadcast_room name msg exclude s) ≡ index s
unfolding broadcast_room
broadcast_room-index name msg exclude s = elim (Option-cases (lookup name s.rooms)) [
  | inl e ↦ rw (e, broadcast_room) refl
  | inr (r, e) ↦ rw (e, broadcast_room) (send_except-index msg exclude r.clients s)
]

pub broadcast_all_rooms-index :
    (msg : Bytes) (s : Server) → index (broadcast_all_rooms msg s) ≡ index s
unfolding broadcast_all_rooms
broadcast_all_rooms-index msg s = send_all-index msg s.clients s

delete-index :
    (name : Bytes) (r : Room) (s : Server)
    → lookup name s.rooms ≡ some r
    → is_empty r.clients ≡ true
    → index (record s { rooms = delete name s.rooms }) ≡ index s
unfolding index
delete-index name r s found empty = λ i. record {
  client_at = λ n. lookup n s.clients;
  member_at =
      fun_ext {f = λ k. member_in (lookup k (delete name s.rooms))}
        {g = λ k. member_in (lookup k s.rooms)} (λ k. fun_ext (λ n. same k n)) i;
  username_at = λ d. (s.heap d).username;
  room_at = λ d. (s.heap d).room;
  reserved_at = (index s).reserved_at;
}
  where
    nobody : (m : Assoc ℕ) (n : Bytes) → is_empty m ≡ true → lookup n m ≡ none
    nobody [] n e = unfold lookup in refl
    nobody (x ∷ m) n e = cc

    same :
        (k n : Bytes)
        → member_in (lookup k (delete name s.rooms)) n ≡ member_in (lookup k s.rooms) n
    same k n =
        ground (
          arith,
          lookup-delete name k s.rooms,
          bytes_eq_iff name k,
          nobody r.clients n empty,
          found,
        )

-- A room is deleted only when it has no members.
pub delete_room_if_empty-index :
    (name : Bytes) (s : Server) → index (delete_room_if_empty name s) ≡ index s
unfolding delete_room_if_empty
delete_room_if_empty-index name s = elim (Bool-cases (bytes_eq name s.default_room)) [
  | inl d ↦ rw (d, delete_room_if_empty) refl
  | inr d ↦ elim (Option-cases (lookup name s.rooms)) [
    | inl e ↦ rw (d, e, delete_room_if_empty) refl
    | inr (r, e) ↦ elim (Bool-cases (is_empty r.clients)) [
      | inl m ↦ elim (Bool-cases (is_empty r.queue)) [
        | inl q ↦ rw (d, e, m, q, delete_room_if_empty) (delete-index name r s e m)
        | inr q ↦ rw (d, e, m, q, delete_room_if_empty) refl
      ]
      | inr m ↦ rw (d, e, m, delete_room_if_empty) refl
    ]
  ]
]
