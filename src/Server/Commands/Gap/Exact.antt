-- ===== src/Server/Commands/Gap/Exact.antt =====
-- How many members a room has after `switchClientRoom` of server/commands.go, exactly.
use net_cat.Base.{
  Bytes, bytes_eq, bytes_eq_iff, bytes_eq_refl, ℕ, suc, false, ◌≡◌, ◌≢◌, refl, ◌∙◌, ap, [], none,
  inl, inr, arith, Bool-cases, Option-cases, codes,
}
use net_cat.Base.Assoc.{lookup, insert, length-insert, delete, lookup-delete, lookup-insert}
use net_cat.Server.{Server, Now}
use net_cat.Server.Names.{validate_room_name}
use net_cat.Server.Rooms.{
  get_room_client_count, get_or_create_room, put_room, drop_member, enter_room, join_room,
  admit_from_room_queue, delete_room_if_empty,
}
use net_cat.Server.Rooms.Capacity.{
  same_room-count, put_room-count, get_or_create_room-count, enter_room-same,
  admit_from_room_queue-count,
}
use net_cat.Server.Index.{Index, index}
use net_cat.Server.Index.Keep.{get_or_create_room-members}
use net_cat.Server.Consistency.Travel.{announce_leave-index}
use net_cat.Server.Session.Admission.{drop_member-heap}
use net_cat.Server.Commands.Travel.{announce_leave, switch_client_room}
use net_cat.Server.Commands.Capacity.{
  send_to-count, prompt_to-count, announce_leave-count, announce_join-count, send_history-count,
}
use net_cat.Server.Commands.Gap.{create_across, cmd_create_across}

-- The room that a client leaves is the only one that loses a member, or is deleted.
module _ (k name : Bytes) (other : bytes_eq name k ≡ false) where
  delete_room_if_empty-elsewhere :
      (s : Server)
      → get_room_client_count k (delete_room_if_empty name s) ≡ get_room_client_count k s
  unfolding delete_room_if_empty get_room_client_count
  delete_room_if_empty-elsewhere s = ground (arith, lookup-delete name k s.rooms, other)

drop_member-room :
    (k : Bytes) (c : ℕ) (name : Bytes) (s : Server)
    → bytes_eq (s.heap c).room k ≡ false
    → lookup k (drop_member c name s).rooms ≡ lookup k s.rooms
unfolding drop_member
drop_member-room k c name s other = elim (Bool-cases (bytes_eq (s.heap c).room [])) [
  | inl e ↦ rw (e, drop_member) refl
  | inr e ↦ elim (Option-cases (lookup (s.heap c).room s.rooms)) [
    | inl g ↦ rw (e, g, drop_member) refl
    | inr (r, g) ↦
        rw (e, g, drop_member)
          (unfold put_room in
            lookup-insert (s.heap c).room k (record r { clients = delete name r.clients }) s.rooms
            ∙ rw other refl)
  ]
]

enter_room-adds :
    (c : ℕ) (room : Bytes) (s : Server)
    → (index s).member_at room (s.heap c).username ≡ none
    → get_room_client_count room (enter_room c room s) ≡ suc (get_room_client_count room s)
unfolding index
enter_room-adds c room s absent =
    let r = get_or_create_room room s in
    enter_room-same room c room s
    ∙ put_room-count room room (record r { clients = insert (s.heap c).username c r.clients }) s
    ∙ rw (bytes_eq_refl room) (
        length-insert (s.heap c).username c r.clients
        ∙ rw (get_or_create_room-members room (s.heap c).username s, absent)
            (ap suc (get_or_create_room-count room s)))

join_room-adds :
    (c : ℕ) (room : Bytes) (s : Server)
    → (index s).member_at room (s.heap c).username ≡ none
    → bytes_eq (s.heap c).room room ≡ false
    → get_room_client_count room (join_room c room s) ≡ suc (get_room_client_count room s)
unfolding join_room
join_room-adds c room s absent other =
    let u = drop_member c (s.heap c).username s in
    let same = drop_member-room room c (s.heap c).username s other in
    enter_room-adds c room u
      (unfold index in rw (drop_member-heap c (s.heap c).username s, same) (unfold index in absent))
    ∙ ap suc (same_room-count room s u same)

-- `switchClientRoom` does not look at the capacity: it adds a member.
switch_client_room-adds :
    (now : Now) (c : ℕ) (room : Bytes) (s : Server)
    → (index s).member_at room (s.heap c).username ≡ none
    → bytes_eq (s.heap c).room room ≡ false
    → get_room_client_count room (switch_client_room now c room s)
      ≡ suc (get_room_client_count room s)
unfolding switch_client_room index
switch_client_room-adds now c room s absent other =
    let old_room = (s.heap c).room in
    let left = announce_leave now old_room (s.heap c).username (codes "switched") s in
    let same = announce_leave-index now old_room (s.heap c).username (codes "switched") s in
    let moved = join_room c room left in
    let admitted = admit_from_room_queue old_room moved in
    let tidied = delete_room_if_empty old_room admitted in
    send_to-count room c _ _
    ∙ announce_join-count room now room (s.heap c).username _
    ∙ send_history-count room c room tidied
    ∙ delete_room_if_empty-elsewhere room old_room other admitted
    ∙ admit_from_room_queue-count room old_room moved
    ∙ join_room-adds c room left (absent_in left same) (other_in left same)
    ∙ ap suc (announce_leave-count room now old_room (s.heap c).username (codes "switched") s)
  where
    absent_in :
        (t : Server) → index t ≡ index s → (index t).member_at room (t.heap c).username ≡ none
    absent_in t e = ap (λ (x : Index). x.member_at room (x.username_at c)) e ∙ absent

    other_in : (t : Server) → index t ≡ index s → bytes_eq (t.heap c).room room ≡ false
    other_in t e = ap (λ (x : Index). bytes_eq (x.room_at c) room) e ∙ other

create_across-adds :
    (between : Server → Server) (now : Now) (c : ℕ) (name : Bytes) (s : Server)
    → lookup name s.rooms ≡ none
    → (index (between s)).member_at name ((between s).heap c).username ≡ none
    → bytes_eq ((between s).heap c).room name ≡ false
    → get_room_client_count name (create_across between now c name none s)
      ≡ suc (get_room_client_count name (between s))
unfolding create_across
create_across-adds between now c name s new absent other =
    rw (new, create_across)
      (prompt_to-count name now c _ ∙ switch_client_room-adds now c name (between s) absent other)

-- After `/create` with a valid name of a room that was not there, by a client that is neither in a
-- room of that name nor a member of it, the room has exactly one member more than others have put
-- into it in the gap between the check that it is not there and the move, be that number the limit
-- or above: the capacity is not looked at.
pub cmd_create_across-adds :
    (between : Server → Server) (now : Now) (c : ℕ) (args : Bytes) (s : Server)
    → args ≢ []
    → validate_room_name args ≡ none
    → lookup args s.rooms ≡ none
    → (index (between s)).member_at args ((between s).heap c).username ≡ none
    → bytes_eq ((between s).heap c).room args ≡ false
    → (get_room_client_count args (cmd_create_across between now c args s)
        ≡ suc (get_room_client_count args (between s)))
unfolding cmd_create_across
cmd_create_across-adds between now c args s given valid new absent other =
    elim (Bool-cases (bytes_eq args [])) [
      | inl e ↦ absurd (given ((bytes_eq_iff args []).0 e))
      | inr e ↦
          rw (e, valid, cmd_create_across)
            (create_across-adds between now c args s new absent other)
    ]
