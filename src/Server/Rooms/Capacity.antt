-- ===== src/Server/Rooms/Capacity.antt =====
-- How many members a room has after each step of a move between rooms.
use net_cat.Base.{
  Bytes, bytes_eq, bytes_eq_iff, ℕ, suc, ◌≤◌, ◌≡◌, refl, ◌∙◌, ap, true, List, [], ◌∷◌, Option, none,
  some, inl, inr, if◌then◌else◌, length, arith, Bool-cases, Option-cases,
}
use net_cat.Base.Assoc.{
  Assoc, lookup, insert, delete, lookup-insert, lookup-delete, length-insert, length-delete-le,
}
use net_cat.Models.{Message}
use net_cat.Server.{Server, Room, QueueEntry, new_room, is_shutting_down, max_active_clients}
use net_cat.Server.Rooms.{
  get_or_create_room, put_room, delete_room_if_empty, drop_member, enter_room, join_room,
  add_room_history, record_room_event, get_room_client_count, check_room_capacity, send_positions,
  next_open, admit_next, admit_from_room_queue,
}
use net_cat.Server.Rooms.History.{on_client-rooms, send_to-rooms, log_to-rooms}

members : Bytes → Assoc Room → ℕ
members k rooms = elim (lookup k rooms) [ none ↦ 0 | some r ↦ length r.clients ]

-- Servers with the same rooms have as many members in each.
pub same_count :
    (k : Bytes) (s t : Server)
    → t.rooms ≡ s.rooms
    → get_room_client_count k t ≡ get_room_client_count k s
unfolding get_room_client_count members
same_count k s t e = ap (members k) e

pub same_room-count :
    (k : Bytes) (s t : Server)
    → lookup k t.rooms ≡ lookup k s.rooms
    → get_room_client_count k t ≡ get_room_client_count k s
unfolding get_room_client_count
same_room-count k s t e = ground arith

pub put_room-count :
    (k name : Bytes) (r : Room) (s : Server)
    → get_room_client_count k (put_room name r s)
      ≡ (if bytes_eq name k then length r.clients else get_room_client_count k s)
unfolding get_room_client_count put_room
put_room-count k name r s = ground (arith, lookup-insert name k r s.rooms)

new_room-count : (name : Bytes) → length (new_room name).clients ≡ 0
unfolding new_room
new_room-count name = refl

pub get_or_create_room-count :
    (name : Bytes) (s : Server)
    → length (get_or_create_room name s).clients ≡ get_room_client_count name s
unfolding get_or_create_room get_room_client_count
get_or_create_room-count name s = ground (arith, new_room-count name)

pub record_room_event-count :
    (k name : Bytes) (msg : Message) (s : Server)
    → get_room_client_count k (record_room_event name msg s) ≡ get_room_client_count k s
unfolding record_room_event add_room_history
record_room_event-count k name msg s =
    same_count k _ _ (log_to-rooms (record msg { room = name }) _)
    ∙ put_room-count k name _ s
    ∙ ground (arith, get_or_create_room-count name s, bytes_eq_iff name k)

send_positions-rooms :
    (i : ℕ) (es : List QueueEntry) (s : Server) → (send_positions i es s).rooms ≡ s.rooms
unfolding send_positions
send_positions-rooms i [] s = refl
send_positions-rooms i (e ∷ es) s = send_positions-rooms (suc i) es _ ∙ send_to-rooms e.client _ s

found-count :
    (name : Bytes) (r : Room) (s : Server)
    → lookup name s.rooms ≡ some r
    → get_room_client_count name s ≡ length r.clients
unfolding get_room_client_count
found-count name r s h = ground arith

kept_members :
    (k name : Bytes) (r : Room) (es : List QueueEntry) (s : Server)
    → lookup name s.rooms ≡ some r
    → get_room_client_count k (put_room name (record r { queue = es }) s)
      ≡ get_room_client_count k s
kept_members k name r es s h =
    put_room-count k name (record r { queue = es }) s
    ∙ ground (arith, found-count name r s h, bytes_eq_iff name k)

admit_next-count :
    (k name : Bytes) (r : Room) (o : Option (QueueEntry × List QueueEntry)) (s : Server)
    → lookup name s.rooms ≡ some r
    → get_room_client_count k (admit_next name r o s) ≡ get_room_client_count k s
unfolding admit_next put_room
admit_next-count k name r none s h = kept_members k name r [] s h
admit_next-count k name r (some (e, es)) s h =
    same_count k (put_room name (record r { queue = es }) s) _ (send_positions-rooms 0 es _)
    ∙ kept_members k name r es s h

pub admit_from_room_queue-count :
    (k name : Bytes) (s : Server)
    → get_room_client_count k (admit_from_room_queue name s) ≡ get_room_client_count k s
unfolding admit_from_room_queue
admit_from_room_queue-count k name s = elim (Bool-cases (is_shutting_down s)) [
  | inl q ↦ rw q refl
  | inr q ↦ rw q (elim (Option-cases (lookup name s.rooms)) [
    | inl e ↦ rw e refl
    | inr (r, e) ↦ rw e (admit_next-count k name r (next_open s.heap r.queue) s e)
  ])
]

pub delete_room_if_empty-count :
    (k name : Bytes) (s : Server)
    → get_room_client_count k (delete_room_if_empty name s) ≤ get_room_client_count k s
unfolding delete_room_if_empty get_room_client_count
delete_room_if_empty-count k name s = ground (arith, lookup-delete name k s.rooms)

drop_member-count :
    (k : Bytes) (c : ℕ) (name : Bytes) (s : Server)
    → get_room_client_count k (drop_member c name s) ≤ get_room_client_count k s
unfolding drop_member
drop_member-count k c name s = elim (Bool-cases (bytes_eq (s.heap c).room [])) [
  | inl e ↦ rw (e, drop_member) (omega arith)
  | inr e ↦ elim (Option-cases (lookup (s.heap c).room s.rooms)) [
    | inl g ↦ rw (e, g, drop_member) (omega arith)
    | inr (r, g) ↦
        rw
          (
            e,
            g,
            drop_member,
            put_room-count k (s.heap c).room (record r { clients = delete name r.clients }) s,
          )
          (ground (
            arith,
            length-delete-le name r.clients,
            found-count (s.heap c).room r s g,
            bytes_eq_iff (s.heap c).room k,
          ))
  ]
]

pub enter_room-same :
    (k : Bytes) (c : ℕ) (room : Bytes) (s : Server)
    → (let r = get_or_create_room room s in
        get_room_client_count k (enter_room c room s)
        ≡ get_room_client_count k
            (put_room room (record r { clients = insert (s.heap c).username c r.clients }) s))
unfolding enter_room
enter_room-same k c room s =
    same_count k (put_room room _ s) _ (on_client-rooms c (λ d. record d { room = room }) _)

insert-le : (n : Bytes) (c : ℕ) (m : Assoc ℕ) → length (insert n c m) ≤ suc (length m)
insert-le n c m = ground (arith, length-insert n c m)

enter_room-count :
    (k : Bytes) (c : ℕ) (room : Bytes) (s : Server)
    → get_room_client_count k (enter_room c room s)
      ≤ (if bytes_eq room k then suc (get_room_client_count k s) else get_room_client_count k s)
enter_room-count k c room s =
    let r = get_or_create_room room s in
    rw
      (
        enter_room-same k c room s,
        put_room-count k room (record r { clients = insert (s.heap c).username c r.clients }) s,
      )
      (ground (
        arith,
        insert-le (s.heap c).username c r.clients,
        get_or_create_room-count room s,
        bytes_eq_iff room k,
      ))

-- `JoinRoom` adds at most one member to the room joined and none to any other.
pub join_room-count :
    (k : Bytes) (c : ℕ) (room : Bytes) (s : Server)
    → get_room_client_count k (join_room c room s)
      ≤ (if bytes_eq room k then suc (get_room_client_count k s) else get_room_client_count k s)
unfolding join_room
join_room-count k c room s =
    let u = drop_member c (s.heap c).username s in
    ground (arith, enter_room-count k c room u, drop_member-count k c (s.heap c).username s)

-- Where the check of the capacity passes, one member more is not too many.
pub check_room_capacity-count :
    (room : Bytes) (s : Server)
    → check_room_capacity room s ≡ true
    → suc (get_room_client_count room s) ≤ max_active_clients
unfolding check_room_capacity get_room_client_count
check_room_capacity-count room s h = ground arith
