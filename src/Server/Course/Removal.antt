-- ===== src/Server/Course/Removal.antt =====
-- The course of entries that leave the queues of server/room.go, and of rooms that are deleted.
pub mod Hosts
use net_cat.Base.{
  Bytes, bytes_eq, bytes_eq_iff, is_member, ℕ, ◌==◌, ==_iff, true, false, ◌||◌, ◌≡◌, refl, sym, ◌∙◌,
  subst, ◌⊎◌, inl, inr, List, [], ◌∷◌, ◌++◌, Option, some, arith, if◌then◌else◌, both_branches,
  Bool-cases, Option-cases, append-nil,
}
use net_cat.Base.Assoc.{lookup, delete, lookup-delete}
use net_cat.Client.{Client}
use net_cat.Server.{Server, Room, QueueEntry}
use net_cat.Server.Names.{extract_host}
use net_cat.Server.Rooms.{
  is_empty, put_room, send_positions, drop_entry, remove_from_room_queue, split_queue, clear_room,
  remove_rooms, remove_from_all_room_queues_by_ip, delete_room_if_empty,
}
use net_cat.Server.Course.{
  view, queue_in, queue_at, In, IsThere, MayLeave, After, same, ◌⨾◌, either,
}
use net_cat.Server.Course.Queues.{requeued, send_positions-After}

drop_entry-stays :
    (id : ℕ) (e : QueueEntry) (q : List QueueEntry) → In e q → In e (drop_entry id q) ⊎ (e.id ≡ id)
unfolding drop_entry
drop_entry-stays id e [] h = absurd h
drop_entry-stays id e (x ∷ q) h = elim (Bool-cases (x.id == id)) [
  | inl t ↦
      rw (t, drop_entry) (elim h [ inl p ↦ inr (ground (arith, ==_iff x.id id)) | inr k ↦ inl k ])
  | inr f ↦
      rw (f, drop_entry)
        (elim h [
          | inl p ↦ inl (inl p)
          | inr k ↦ elim (drop_entry-stays id e q k) [ inl m ↦ inl (inr m) | inr m ↦ inr m ]
        ])
]

drop_entry-comes : (id : ℕ) (e : QueueEntry) (q : List QueueEntry) → In e (drop_entry id q) → In e q
unfolding drop_entry
drop_entry-comes id e [] h = h
drop_entry-comes id e (x ∷ q) h =
    both_branches (λ (left : List QueueEntry). In e left → In e (x ∷ q)) (x.id == id) (λ k. inr k)
      (λ k. elim k [ inl p ↦ inl p | inr m ↦ inr (drop_entry-comes id e q m) ]) h

-- The entry that is taken out is that of one of the clients that leave.
pub remove_from_room_queue-After :
    {leaving : List ℕ} (name : Bytes) (id : ℕ) (s : Server)
    → ((e : QueueEntry)
        → In e (queue_at name (view s))
        → e.id ≡ id
        → is_member e.client leaving ≡ true)
    → After leaving (remove_from_room_queue name id s) s
unfolding remove_from_room_queue
remove_from_room_queue-After {leaving} name id s own = elim (Option-cases (lookup name s.rooms)) [
  | inl e ↦ rw (e, remove_from_room_queue) same
  | inr (r, e) ↦
      rw (e, remove_from_room_queue)
        (send_positions-After 0 (drop_entry id r.queue) _
          ⨾ requeued name r s e (drop_entry id r.queue)
              (λ x h. taken r e x h (drop_entry-stays id x r.queue h))
              (λ x h. drop_entry-comes id x r.queue h))
]
  where
    taken :
        (r : Room)
        → lookup name s.rooms ≡ some r
        → (x : QueueEntry) → In x r.queue
        → In x (drop_entry id r.queue) ⊎ (x.id ≡ id)
        → In x (drop_entry id r.queue) ⊎ MayLeave leaving (view s) x
    taken r e x h (inl k) = inl k
    taken r e x h (inr p) =
        inr (inr (inr (own x (subst (λ (o : Option Room). In x (queue_in o)) (sym e) h) p)))

-- The clients that are removed are among those that leave.
delete-After :
    {leaving : List ℕ} (name : Bytes) (r : Room) (s : Server)
    → lookup name s.rooms ≡ some r
    → is_empty r.queue ≡ true
    → bytes_eq name s.default_room ≡ false
    → After leaving (record s { rooms = delete name s.rooms }) s
delete-After {leaving} name r s found empty other = record {
  course = record {
    quits = λ h. h;
    same_default = refl;
    has_default = subst IsThere (sym (lookup-delete name s.default_room s.rooms ∙ rw other refl));
    closed = λ i h. h;
    expelled = λ i h. h;
    address = λ i. refl;
    admits = λ id h. h;
    counts = omega arith;
    logs = λ path. ([], sym (append-nil _));
    stays = λ room e h. inl (subst (In e) (sym (same_queue room)) h);
    comes = λ room e h. inl (subst (In e) (same_queue room) h);
  };
}
  where
    nobody : (q : List QueueEntry) → is_empty q ≡ true → q ≡ []
    nobody [] h = refl
    nobody (x ∷ q) h = cc

    same_queue :
        (room : Bytes)
        → queue_in (lookup room (delete name s.rooms)) ≡ queue_in (lookup room s.rooms)
    same_queue room = ground (
      arith,
      lookup-delete name room s.rooms,
      bytes_eq_iff name room,
      nobody r.queue empty,
      found,
    )

pub delete_room_if_empty-After :
    {leaving : List ℕ} (name : Bytes) (s : Server) → After leaving (delete_room_if_empty name s) s
unfolding delete_room_if_empty
delete_room_if_empty-After name s = elim (Bool-cases (bytes_eq name s.default_room)) [
  | inl d ↦ rw (d, delete_room_if_empty) same
  | inr d ↦ elim (Option-cases (lookup name s.rooms)) [
    | inl e ↦ rw (d, e, delete_room_if_empty) same
    | inr (r, e) ↦ elim (Bool-cases (is_empty r.clients)) [
      | inl m ↦ elim (Bool-cases (is_empty r.queue)) [
        | inl q ↦ rw (d, e, m, q, delete_room_if_empty) (delete-After name r s e q d)
        | inr q ↦ rw (d, e, m, q, delete_room_if_empty) same
      ]
      | inr m ↦ rw (d, e, m, delete_room_if_empty) same
    ]
  ]
]
