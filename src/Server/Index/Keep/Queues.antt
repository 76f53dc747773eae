-- ===== src/Server/Index/Keep/Queues.antt =====
-- The queues of server/room.go, as to the indexes.
use net_cat.Base.{
  Bytes, ℕ, ◌≡◌, refl, ◌∙◌, suc, List, [], ◌∷◌, ◌++◌, Option, none, some, inl, inr, Bool-cases,
  Option-cases,
}
use net_cat.Base.Assoc.{lookup}
use net_cat.Server.{Server, Room, QueueEntry, is_shutting_down}
use net_cat.Server.Rooms.{
  put_room, is_empty, send_positions, next_open, admit_next, drop_entry, admit_from_room_queue,
  remove_from_room_queue, split_queue, clear_room, remove_rooms, remove_from_all_room_queues_by_ip,
}
use net_cat.Server.Index.{index}
use net_cat.Server.Index.Keep.{put_room-index, send_to-index}

pub send_positions-index :
    (i : ℕ) (es : List QueueEntry) (s : Server) → index (send_positions i es s) ≡ index s
unfolding send_positions
send_positions-index i [] s = refl
send_positions-index i (e ∷ es) s = send_positions-index (suc i) es _ ∙ send_to-index e.client _ s

put_room_queue-index :
    (name : Bytes) (r : Room) (es : List QueueEntry) (s : Server)
    → lookup name s.rooms ≡ some r
    → index (put_room name (record r { queue = es }) s) ≡ index s
put_room_queue-index name r es s h = put_room-index name _ s (λ n. rw h refl)

admit_next-index :
    (name : Bytes) (r : Room) (o : Option (QueueEntry × List QueueEntry)) (s : Server)
    → lookup name s.rooms ≡ some r
    → index (admit_next name r o s) ≡ index s
unfolding admit_next put_room send_positions index
admit_next-index name r none s h = put_room_queue-index name r [] s h
admit_next-index name r (some (e, es)) s h =
    send_positions-index 0 es _ ∙ put_room_queue-index name r es s h

pub admit_from_room_queue-index :
    (name : Bytes) (s : Server) → index (admit_from_room_queue name s) ≡ index s
unfolding admit_from_room_queue
admit_from_room_queue-index name s = elim (Bool-cases (is_shutting_down s)) [
  | inl q ↦ rw q refl
  | inr q ↦ rw q (elim (Option-cases (lookup name s.rooms)) [
    | inl e ↦ rw e refl
    | inr (r, e) ↦ rw e (admit_next-index name r (next_open s.heap r.queue) s e)
  ])
]

pub remove_from_room_queue-index :
    (name : Bytes) (id : ℕ) (s : Server) → index (remove_from_room_queue name id s) ≡ index s
unfolding remove_from_room_queue
remove_from_room_queue-index name id s = elim (Option-cases (lookup name s.rooms)) [
  | inl e ↦ rw (e, remove_from_room_queue) refl
  | inr (r, e) ↦
      rw (e, remove_from_room_queue)
        (send_positions-index 0 (drop_entry id r.queue) _
          ∙ put_room_queue-index name r (drop_entry id r.queue) s e)
]

clear_room-index :
    (host name : Bytes) (removed : List ℕ) (s : Server)
    → index (clear_room host name removed s).1 ≡ index s
unfolding clear_room
clear_room-index host name removed s = elim (Option-cases (lookup name s.rooms)) [
  | inl e ↦ rw (e, clear_room) refl
  | inr (r, e) ↦
      let parts = split_queue host s.heap r.queue in
      elim (Bool-cases (is_empty (removed ++ parts.0))) [
        | inl m ↦ rw (e, clear_room, m) refl
        | inr m ↦
            rw (e, clear_room, m)
              (send_positions-index 0 parts.1 _ ∙ put_room_queue-index name r parts.1 s e)
      ]
]

remove_rooms-index :
    (host : Bytes) (names : List Bytes) (removed : List ℕ) (s : Server)
    → index (remove_rooms host names removed s).1 ≡ index s
unfolding remove_rooms
remove_rooms-index host [] removed s = refl
remove_rooms-index host (name ∷ names) removed s =
    let round = clear_room host name removed s in
    remove_rooms-index host names round.0 round.1 ∙ clear_room-index host name removed s

pub remove_from_all_room_queues_by_ip-index :
    (ip : Bytes) (s : Server) → index (remove_from_all_room_queues_by_ip ip s).1 ≡ index s
unfolding remove_from_all_room_queues_by_ip
remove_from_all_room_queues_by_ip-index ip s = remove_rooms-index _ _ [] s
