-- ===== src/Server/Index/Change.antt =====
-- `RegisterClient`, `RemoveClient` and `JoinRoom`, against `Spec`.
use net_cat.Base.{
  Bytes, bytes_eq, bytes_eq_iff, ℕ, true, false, ◌&&◌, ◌≡◌, refl, sym, ◌∙◌, ap, subst, [], Option,
  none, some, inl, inr, if◌then◌else◌, ◌==◌, ==_iff, arith, Bool-cases, Option-cases,
}
use mathlib.Core.Path.{fun_ext}
use net_cat.Base.Assoc.{lookup, insert, delete, lookup-insert, lookup-delete}
use net_cat.Client.{set_last_activity}
use net_cat.Server.{Server, Room, Now, on_client, is_set}
use net_cat.Server.Rooms.{put_room, drop_member, enter_room, join_room, get_or_create_room}
use net_cat.Server.Clients.{add_client, register_client, drop_client, remove_client, has}
use net_cat.Server.Index.{Index, index, member_in, IsConsistent}
use net_cat.Server.Index.Keep.{get_or_create_room-members}
use net_cat.Server.Index.Frame.{SameRooms, remove_client-frame}
use net_cat.Server.Index.Spec.{take_name, drop_name, move}

-- Two indexes are equal if they give the same answers.
pub same_index :
    (x y : Index)
    → ((n : Bytes) → x.client_at n ≡ y.client_at n)
    → ((r n : Bytes) → x.member_at r n ≡ y.member_at r n)
    → ((i : ℕ) → x.username_at i ≡ y.username_at i)
    → ((i : ℕ) → x.room_at i ≡ y.room_at i)
    → ((n : Bytes) → x.reserved_at n ≡ y.reserved_at n)
    → x ≡ y
same_index x y p q u r z = λ i. record {
  client_at = fun_ext {f = x.client_at} {g = y.client_at} p i;
  member_at = fun_ext {f = x.member_at} {g = y.member_at} (λ k. fun_ext (q k)) i;
  username_at = fun_ext {f = x.username_at} {g = y.username_at} u i;
  room_at = fun_ext {f = x.room_at} {g = y.room_at} r i;
  reserved_at = fun_ext {f = x.reserved_at} {g = y.reserved_at} z i;
}

pub is_free {ℓ} : {A : Type ℓ} (o : Option A) → has o ≡ false → o ≡ none
is_free none h = refl
is_free (some a) h = cc

pub register_client-add :
    (now : Now) (c : ℕ) (name : Bytes) (s t : Server)
    → register_client now c name s ≡ inr t
    → (has (lookup name s.clients) ≡ false)
      × (is_set name s.reserved_names ≡ false)
      × (t ≡ add_client now c name s)
unfolding register_client
register_client-add now c name s t h = ground arith

add_client-take_name :
    (now : Now) (c : ℕ) (name : Bytes) (s : Server)
    → index (add_client now c name s) ≡ take_name c name (index s)
unfolding add_client on_client set_last_activity index
add_client-take_name now c name s =
    same_index _ _ (λ n. lookup-insert name n c s.clients) (λ r n. refl) (λ i. ground arith)
      (λ i. ground (arith, ==_iff c i)) (λ n. refl)

-- Registering succeeds only for a name that is neither in use nor reserved, and then the client
-- takes it, in the index and in its own record, and nothing else in the indexes changes.
pub register_client-take_name :
    (now : Now) (c : ℕ) (name : Bytes) (s t : Server)
    → register_client now c name s ≡ inr t
    → (lookup name s.clients ≡ none)
      × (is_set name s.reserved_names ≡ false)
      × (index t ≡ take_name c name (index s))
unfolding index
register_client-take_name now c name s t h =
    let (free, open_name, e) = register_client-add now c name s t h in
    (is_free _ free, open_name, ap index e ∙ add_client-take_name now c name s)

put_room-members :
    (name : Bytes) (r : Room) (s : Server) (k n : Bytes)
    → member_in (lookup k (put_room name r s).rooms) n
      ≡ (if bytes_eq name k then lookup n r.clients else member_in (lookup k s.rooms) n)
unfolding put_room
put_room-members name r s k n = ground (arith, lookup-insert name k r s.rooms)

-- A member that a room's index loses.
unlisted : Bytes → Bytes → Index → Index
unlisted room name x = record x {
  member_at = λ r n. if bytes_eq room r && bytes_eq name n then none else x.member_at r n;
}

put_room-unlisted :
    (room name : Bytes) (r : Room) (s : Server)
    → lookup room s.rooms ≡ some r
    → index (put_room room (record r { clients = delete name r.clients }) s)
      ≡ unlisted room name (index s)
unfolding put_room unlisted index
put_room-unlisted room name r s h =
    same_index _ _ (λ n. refl)
      (λ k n. ground (
        arith,
        lookup-insert room k (record r { clients = delete name r.clients }) s.rooms,
        lookup-delete name n r.clients,
        bytes_eq_iff room k,
        h,
      ))
      (λ i. refl) (λ i. refl) (λ n. refl)

-- Where the room has no entry there is none to lose.
absent-unlisted :
    (room name : Bytes) (x : Index) → x.member_at room name ≡ none → x ≡ unlisted room name x
unfolding unlisted
absent-unlisted room name x h =
    same_index _ _ (λ n. refl) (λ k n. ground (arith, bytes_eq_iff room k, bytes_eq_iff name n, h))
      (λ i. refl) (λ i. refl) (λ n. refl)

nobody_outside :
    (c : ℕ) (name : Bytes) (s : Server)
    → IsConsistent (index s)
    → bytes_eq (s.heap c).room [] ≡ true
    → (index s).member_at (s.heap c).room name ≡ none
unfolding index
nobody_outside c name s v e =
    subst (λ r. member_in (lookup r s.rooms) name ≡ none)
      (sym ((bytes_eq_iff (s.heap c).room []).0 e)) (v.outside name)

drop_member-unlisted :
    (c : ℕ) (name : Bytes) (s : Server)
    → IsConsistent (index s)
    → index (drop_member c name s) ≡ unlisted (s.heap c).room name (index s)
unfolding drop_member index
drop_member-unlisted c name s v = elim (Bool-cases (bytes_eq (s.heap c).room [])) [
  | inl e ↦
      rw (e, drop_member)
        (absent-unlisted (s.heap c).room name (index s) (nobody_outside c name s v e))
  | inr e ↦ elim (Option-cases (lookup (s.heap c).room s.rooms)) [
    | inl g ↦ rw (e, g, drop_member) (absent-unlisted (s.heap c).room name (index s) (rw g refl))
    | inr (r, g) ↦ rw (e, g, drop_member) (put_room-unlisted _ name r s g)
  ]
]

-- A member that a room's index gains, and says so.
listed : ℕ → Bytes → Index → Index
listed c room x = record x {
  member_at =
      λ r n. if bytes_eq room r && bytes_eq (x.username_at c) n then some c else x.member_at r n;
  room_at = λ i. if c == i then room else x.room_at i;
}

enter_room-listed :
    (c : ℕ) (room : Bytes) (s : Server) → index (enter_room c room s) ≡ listed c room (index s)
unfolding enter_room put_room on_client listed index
enter_room-listed c room s =
    let r = get_or_create_room room s in
    same_index _ _ (λ n. refl)
      (λ k n. ground (
        arith,
        lookup-insert room k (record r { clients = insert (s.heap c).username c r.clients })
            s.rooms,
        lookup-insert (s.heap c).username n c r.clients,
        bytes_eq_iff room k,
        get_or_create_room-members room n s,
      ))
      (λ i. ground (arith, ==_iff c i)) (λ i. ground arith) (λ n. refl)

listed-unlisted :
    (c : ℕ) (room : Bytes) (x : Index)
    → listed c room (unlisted (x.room_at c) (x.username_at c) x) ≡ move c room x
unfolding listed unlisted
listed-unlisted c room x =
    same_index _ _ (λ n. refl) (λ k n. ground arith) (λ i. refl) (λ i. refl) (λ n. refl)

-- On consistent indexes `JoinRoom` moves the client from the room it was in, if any, to the new
-- one, and nobody else.
pub join_room-move :
    (c : ℕ) (room : Bytes) (s : Server)
    → IsConsistent (index s)
    → index (join_room c room s) ≡ move c room (index s)
unfolding join_room index
join_room-move c room s v =
    enter_room-listed c room (drop_member c (s.heap c).username s)
    ∙ ap (listed c room) (drop_member-unlisted c (s.heap c).username s v)
    ∙ listed-unlisted c room (index s)

drop_client-index :
    (name : Bytes) (s : Server)
    → index (drop_client name s) ≡ record (index s) {
      client_at = λ n. if bytes_eq name n then none else (index s).client_at n;
    }
unfolding drop_client index
drop_client-index name s =
    same_index _ _ (λ n. lookup-delete name n s.clients) (λ r n. refl) (λ i. refl) (λ i. refl)
      (λ n. refl)

remove_client-index :
    (c : ℕ) (name : Bytes) (s : Server)
    → IsConsistent (index s)
    → lookup name s.clients ≡ some c
    → index (remove_client name s) ≡ drop_name c name (index s)
unfolding remove_client unlisted index
remove_client-index c name s v held =
    rw (held, remove_client)
      (drop_client-index name (drop_member c name s)
        ∙ ap {B = Index}
            (λ x. record x { client_at = λ n. if bytes_eq name n then none else x.client_at n })
            (drop_member-unlisted c name s v))

-- On consistent indexes `RemoveClient` of a name in use takes from its client the name and the
-- membership of its room. Nothing else changes: no other field of the server, no client, and of
-- the rooms no more than their members.
pub remove_client-drop_name :
    (c : ℕ) (name : Bytes) (s : Server)
    → IsConsistent (index s)
    → lookup name s.clients ≡ some c
    → (let t = remove_client name s in
        (index t ≡ drop_name c name (index s))
        × (t ≡ record s { clients = delete name s.clients; rooms = t.rooms })
        × SameRooms t s)
remove_client-drop_name c name s v held =
    let (rest, rooms) = remove_client-frame c name s held in
    (remove_client-index c name s v held, rest, rooms)
