-- ===== src/Server/Rooms.antt =====
-- server/room.go.
pub mod Queue
pub mod Listing
pub mod Capacity
pub mod History
use net_cat.Base.{
  Bytes, codes, bytes_eq, length, ltb, ℕ, suc, ◌+◌, Bool, true, false, ◌&&◌, not, ◌==◌, List, [],
  ◌∷◌, ◌++◌, map, Option, none, some, if◌then◌else◌,
}
use net_cat.Base.Assoc.{Assoc, lookup, insert, delete, keys}
use net_cat.Base.Decimal.{decimal}
use net_cat.Base.Sort.{insertion_sort}
use net_cat.Models.{Message}
use net_cat.Client.{Client, is_closed}
use net_cat.Server.{
  Server, Room, QueueEntry, new_room, on_client, send_to, log_to, is_shutting_down,
  max_active_clients,
}
use net_cat.Server.Names.{extract_host}

-- `getOrCreateRoom`: the room; the caller writes it back.
unfoldable pub get_or_create_room : Bytes → Server → Room
get_or_create_room name s = elim (lookup name s.rooms) [ none ↦ new_room name | some r ↦ r ]

unfoldable pub put_room : Bytes → Room → Server → Server
put_room name r s = record s { rooms = insert name r s.rooms }

abbrev pub is_empty {ℓ} : {A : Type ℓ} → List A → Bool
is_empty [] = true
is_empty (x ∷ xs) = false

unfoldable pub delete_room_if_empty : Bytes → Server → Server
delete_room_if_empty name s =
    if bytes_eq name s.default_room then s else elim (lookup name s.rooms) [
      | none ↦ s
      | some r ↦
          if is_empty r.clients && is_empty r.queue
          then record s { rooms = delete name s.rooms }
          else s
    ]

-- The index of the client's room loses a name.
unfoldable pub drop_member : ℕ → Bytes → Server → Server
drop_member c name s =
    if bytes_eq (s.heap c).room [] then s else elim (lookup (s.heap c).room s.rooms) [
      | none ↦ s
      | some r ↦ put_room (s.heap c).room (record r { clients = delete name r.clients }) s
    ]

unfoldable pub enter_room : ℕ → Bytes → Server → Server
unfolding put_room
enter_room c room_name s =
    let r = get_or_create_room room_name s in
    on_client c (λ d. record d { room = room_name })
      (put_room room_name (record r { clients = insert (s.heap c).username c r.clients }) s)

unfoldable pub join_room : ℕ → Bytes → Server → Server
join_room c room_name s = enter_room c room_name (drop_member c (s.heap c).username s)

-- Sends to the members in the map, but for one name.
unfoldable pub send_except : Bytes → Bytes → Assoc ℕ → Server → Server
send_except msg exclude [] s = s
send_except msg exclude ((name, c) ∷ m) s =
    send_except msg exclude m (if bytes_eq name exclude then s else send_to c msg s)

unfoldable pub send_all : Bytes → Assoc ℕ → Server → Server
send_all msg [] s = s
send_all msg ((name, c) ∷ m) s = send_all msg m (send_to c msg s)

unfoldable pub broadcast_room : Bytes → Bytes → Bytes → Server → Server
broadcast_room room_name msg exclude s = elim (lookup room_name s.rooms) [
  | none ↦ s
  | some r ↦ send_except msg exclude r.clients s
]

unfoldable pub broadcast_room_all : Bytes → Bytes → Server → Server
broadcast_room_all room_name msg s = elim (lookup room_name s.rooms) [
  | none ↦ s
  | some r ↦ send_all msg r.clients s
]

unfoldable pub broadcast_all_rooms : Bytes → Server → Server
broadcast_all_rooms msg s = send_all msg s.clients s

unfoldable pub get_room_history : Bytes → Server → List Message
get_room_history room_name s = elim (lookup room_name s.rooms) [ none ↦ [] | some r ↦ r.history ]

unfoldable pub add_room_history : Bytes → Message → Server → Server
unfolding put_room
add_room_history room_name msg s =
    let r = get_or_create_room room_name s in
    put_room room_name (record r { history = r.history ++ msg ∷ [] }) s

unfoldable pub record_room_event : Bytes → Message → Server → Server
record_room_event room_name msg s =
    let tagged = record msg { room = room_name } in
    log_to tagged (add_room_history room_name tagged s)

unfoldable pub get_room_names : Server → List Bytes
get_room_names s = insertion_sort (λ (n : Bytes). n) (keys s.rooms)

unfoldable pub get_room_client_count : Bytes → Server → ℕ
get_room_client_count room_name s = elim (lookup room_name s.rooms) [
  | none ↦ 0
  | some r ↦ length r.clients
]

unfoldable pub get_room_client_names : Bytes → Server → List Bytes
get_room_client_names room_name s = elim (lookup room_name s.rooms) [
  | none ↦ []
  | some r ↦ insertion_sort (λ (n : Bytes). n) (keys r.clients)
]

unfoldable pub check_room_capacity : Bytes → Server → Bool
check_room_capacity room_name s = elim (lookup room_name s.rooms) [
  | none ↦ true
  | some r ↦ ltb (length r.clients) max_active_clients
]

-- "You are now #%d in the queue.\n", to each entry, counted from `i + 1`.
unfoldable pub send_positions : ℕ → List QueueEntry → Server → Server
send_positions i [] s = s
send_positions i (e ∷ es) s =
    send_positions (suc i) es
      (send_to e.client (codes "You are now #" ++ (decimal (suc i) ++ codes " in the queue.\n")) s)

-- The loop: the first entry whose client is open, and the entries behind it.
unfoldable pub next_open : (ℕ → Client) → List QueueEntry → Option (QueueEntry × List QueueEntry)
next_open heap [] = none
next_open heap (e ∷ es) = if is_closed (heap e.client) then next_open heap es else some (e, es)

unfoldable pub admit_next : Bytes → Room → Option (QueueEntry × List QueueEntry) → Server → Server
admit_next room_name r none s = put_room room_name (record r { queue = [] }) s
admit_next room_name r (some (e, es)) s =
    send_positions 0 es
      (record (put_room room_name (record r { queue = es }) s) { admitted = e.id ∷ s.admitted })

unfoldable pub admit_from_room_queue : Bytes → Server → Server
unfolding put_room
admit_from_room_queue room_name s =
    if is_shutting_down s then s else elim (lookup room_name s.rooms) [
      | none ↦ s
      | some r ↦ admit_next room_name r (next_open s.heap r.queue) s
    ]

-- The first entry with that id is taken out.
unfoldable pub drop_entry : ℕ → List QueueEntry → List QueueEntry
drop_entry id [] = []
drop_entry id (e ∷ es) = if e.id == id then es else e ∷ drop_entry id es

unfoldable pub remove_from_room_queue : Bytes → ℕ → Server → Server
unfolding put_room
remove_from_room_queue room_name id s = elim (lookup room_name s.rooms) [
  | none ↦ s
  | some r ↦
      send_positions 0 (drop_entry id r.queue)
        (put_room room_name (record r { queue = drop_entry id r.queue }) s)
]

-- One room of `RemoveFromAllRoomQueuesByIP`: the entries that match and those that do not.
unfoldable pub split_queue : Bytes → (ℕ → Client) → List QueueEntry → List ℕ × List QueueEntry
split_queue host heap [] = ([], [])
split_queue host heap (e ∷ es) =
    let (gone, left) = split_queue host heap es in
    if bytes_eq (extract_host (heap e.client).ip) host
    then (e.client ∷ gone, left)
    else (gone, e ∷ left)

-- One round of its loop; what was removed in earlier rounds counts too.
unfoldable pub clear_room : Bytes → Bytes → List ℕ → Server → List ℕ × Server
unfolding put_room
clear_room host name removed s = elim (lookup name s.rooms) [
  | none ↦ (removed, s)
  | some r ↦
      let (gone, left) = split_queue host s.heap r.queue in
      (
        removed ++ gone,
        if is_empty (removed ++ gone)
            then s
            else send_positions 0 left (put_room name (record r { queue = left }) s),
      )
]

unfoldable pub remove_rooms : Bytes → List Bytes → List ℕ → Server → List ℕ × Server
remove_rooms host [] removed s = (removed, s)
remove_rooms host (name ∷ names) removed s =
    let (removed', s') = clear_room host name removed s in remove_rooms host names removed' s'

-- The removed clients, and the server.
unfoldable pub remove_from_all_room_queues_by_ip : Bytes → Server → List ℕ × Server
remove_from_all_room_queues_by_ip ip s = remove_rooms (extract_host ip) (keys s.rooms) [] s

unfoldable pub queue_total : Assoc Room → ℕ
queue_total [] = 0
queue_total ((name, r) ∷ rooms) = length r.queue + queue_total rooms

-- `GetQueueLength`.
unfoldable pub get_queue_length : Server → ℕ
unfolding queue_total
get_queue_length s = queue_total s.rooms
