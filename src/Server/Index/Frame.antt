-- ===== src/Server/Index/Frame.antt =====
-- What server/clients.go leaves alone when it changes the name indexes: all of the server but the
-- index of names and the members of rooms.
use net_cat.Base.{
  Bytes, bytes_eq, bytes_eq_iff, ℕ, ◌≡◌, refl, [], ap, Option, none, some, inl, inr, arith,
  Bool-cases, Option-cases,
}
use net_cat.Base.Assoc.{Assoc, lookup, insert, delete, lookup-insert}
use net_cat.Base.Heap.{update}
use net_cat.Server.{Server, Room, on_client}
use net_cat.Server.Rooms.{put_room, drop_member}
use net_cat.Server.Clients.{drop_client, remove_client, set_name, rename_member, swap_name}

-- A room without its members: its name, its history and its queue.
abbrev pub without_members : Option Room → Option Room
without_members none = none
without_members (some r) = some (record r { clients = [] })

-- The rooms of `t` are those of `s` but for their members.
abbrev pub SameRooms : Server → Server → Type 0
SameRooms t s =
    (k : Bytes) → without_members (lookup k t.rooms) ≡ without_members (lookup k s.rooms)

put_members-SameRooms :
    (name : Bytes) (r : Room) (m : Assoc ℕ) (s : Server)
    → lookup name s.rooms ≡ some r
    → SameRooms (put_room name (record r { clients = m }) s) s
unfolding put_room
put_members-SameRooms name r m s h k =
    ground (arith, lookup-insert name k (record r { clients = m }) s.rooms, bytes_eq_iff name k)

-- Only the rooms change, and of them only members.
abbrev Within : Server → Server → Type 0
Within t s = (t ≡ record s { rooms = t.rooms }) × SameRooms t s

drop_member-Within : (c : ℕ) (name : Bytes) (s : Server) → Within (drop_member c name s) s
unfolding drop_member
drop_member-Within c name s = elim (Bool-cases (bytes_eq (s.heap c).room [])) [
  | inl e ↦ rw (e, drop_member) (refl, λ k. refl)
  | inr e ↦ elim (Option-cases (lookup (s.heap c).room s.rooms)) [
    | inl g ↦ rw (e, g, drop_member) (refl, λ k. refl)
    | inr (r, g) ↦
        rw (e, g, drop_member)
          (unfold put_room in refl, put_members-SameRooms (s.heap c).room r _ s g)
  ]
]

rename_member-Within :
    (c : ℕ) (old_name new_name : Bytes) (s : Server)
    → Within (rename_member c old_name new_name s) s
unfolding rename_member
rename_member-Within c old_name new_name s = elim (Bool-cases (bytes_eq (s.heap c).room [])) [
  | inl e ↦ rw (e, rename_member) (refl, λ k. refl)
  | inr e ↦ elim (Option-cases (lookup (s.heap c).room s.rooms)) [
    | inl g ↦ rw (e, g, rename_member) (refl, λ k. refl)
    | inr (r, g) ↦
        rw (e, g, rename_member)
          (unfold put_room in refl, put_members-SameRooms (s.heap c).room r _ s g)
  ]
]

-- `RemoveClient` changes no field of the server but the index of names and the rooms, and of the
-- rooms no more than their members.
pub remove_client-frame :
    (c : ℕ) (name : Bytes) (s : Server)
    → lookup name s.clients ≡ some c
    → (let t = remove_client name s in
        (t ≡ record s { clients = delete name s.clients; rooms = t.rooms }) × SameRooms t s)
unfolding remove_client drop_client
remove_client-frame c name s held =
    let (same, rooms) = drop_member-Within c name s in
    rw (held, remove_client) (ap (drop_client name) same, rooms)

-- The rename changes no field of the server but the index of names, the rooms and the client, of
-- the rooms no more than their members, and of the client no more than its name.
pub swap_name-frame :
    (c : ℕ) (old_name new_name : Bytes) (s : Server)
    → (let t = swap_name c old_name new_name s in
        (t ≡ record s {
          clients = insert new_name c (delete old_name s.clients);
          rooms = t.rooms;
          heap = update s.heap c (record (s.heap c) { username = new_name });
        })
        × SameRooms t s)
unfolding swap_name set_name on_client
swap_name-frame c old_name new_name s =
    let (same, rooms) = rename_member-Within c old_name new_name (set_name c old_name new_name s) in
    (same, rooms)
