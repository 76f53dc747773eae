-- ===== src/Server/Course/Removal/Hosts.antt =====
-- The course of the entries of one host, that a ban takes out of all queues.
use net_cat.Base.{
  Bytes, bytes_eq, is_member, ℕ, ==_iff, true, ◌||◌, ◌≡◌, refl, ◌⊎◌, inl, inr, List, [], ◌∷◌, ◌++◌,
  some, arith, if◌then◌else◌, both_branches, Option-cases,
}
use net_cat.Base.Assoc.{lookup}
use net_cat.Client.{Client}
use net_cat.Server.{Server, Room, QueueEntry}
use net_cat.Server.Names.{extract_host}
use net_cat.Server.Rooms.{
  is_empty, put_room, send_positions, split_queue, clear_room, remove_rooms,
  remove_from_all_room_queues_by_ip,
}
use net_cat.Server.Course.{view, In, MayLeave, After, same, ◌⨾◌, either}
use net_cat.Server.Course.Queues.{requeued, send_positions-After}

abbrev pub Within : List ℕ → List ℕ → Type 0
Within gone leaving = (c : ℕ) → is_member c gone ≡ true → is_member c leaving ≡ true

split_queue-stays :
    (host : Bytes) (heap : ℕ → Client) (e : QueueEntry) (q : List QueueEntry)
    → In e q
    → In e (split_queue host heap q).1 ⊎ (is_member e.client (split_queue host heap q).0 ≡ true)
unfolding split_queue
split_queue-stays host heap e [] h = absurd h
split_queue-stays host heap e (x ∷ q) h =
    let (gone, left) = split_queue host heap q in
    both_branches
      (λ (parts : List ℕ × List QueueEntry). In e parts.1 ⊎ (is_member e.client parts.0 ≡ true))
      (bytes_eq (extract_host (heap x.client).ip) host) {a = (x.client ∷ gone, left)}
      {b = (gone, x ∷ left)}
      (elim h [
        | inl p ↦ inr (ground (arith, ==_iff x.client e.client))
        | inr k ↦ elim (split_queue-stays host heap e q k) [
          | inl m ↦ inl m
          | inr m ↦ inr (ground arith)
        ]
      ])
      (elim h [
        | inl p ↦ inl (inl p)
        | inr k ↦ elim (split_queue-stays host heap e q k) [ inl m ↦ inl (inr m) | inr m ↦ inr m ]
      ])

split_queue-comes :
    (host : Bytes) (heap : ℕ → Client) (e : QueueEntry) (q : List QueueEntry)
    → In e (split_queue host heap q).1
    → In e q
unfolding split_queue
split_queue-comes host heap e [] h = h
split_queue-comes host heap e (x ∷ q) h =
    let (gone, left) = split_queue host heap q in
    both_branches (λ (parts : List ℕ × List QueueEntry). In e parts.1 → In e (x ∷ q))
      (bytes_eq (extract_host (heap x.client).ip) host) {a = (x.client ∷ gone, left)}
      {b = (gone, x ∷ left)} (λ k. inr (split_queue-comes host heap e q k))
      (λ k. elim k [ inl p ↦ inl p | inr m ↦ inr (split_queue-comes host heap e q m) ]) h

is_member-append :
    (c : ℕ) (cs ds : List ℕ) → is_member c (cs ++ ds) ≡ (is_member c cs || is_member c ds)
is_member-append c [] ds = refl
is_member-append c (x ∷ cs) ds = ground (arith, is_member-append c cs ds)

cleared :
    {leaving : List ℕ} (host name : Bytes) (removed : List ℕ) (r : Room) (s : Server)
    → lookup name s.rooms ≡ some r
    → (let (gone, left) = split_queue host s.heap r.queue in
        Within (removed ++ gone) leaving
        → After leaving
            (if is_empty (removed ++ gone)
              then s
              else send_positions 0 left (put_room name (record r { queue = left }) s))
            s)
cleared {leaving} host name removed r s e within =
    let (gone, left) = split_queue host s.heap r.queue in
    either (is_empty (removed ++ gone)) same (
      send_positions-After 0 left _
      ⨾ requeued name r s e left (λ x h. taken x (split_queue-stays host s.heap x r.queue h))
          (λ x h. split_queue-comes host s.heap x r.queue h))
  where
    taken :
        (x : QueueEntry)
        → In x (split_queue host s.heap r.queue).1
          ⊎ (is_member x.client (split_queue host s.heap r.queue).0 ≡ true)
        → In x (split_queue host s.heap r.queue).1 ⊎ MayLeave leaving (view s) x
    taken x (inl k) = inl k
    taken x (inr m) = inr (
        inr (
          inr (
            within x.client (
              ground
                (arith, is_member-append x.client removed (split_queue host s.heap r.queue).0)))))

clear_room-Within :
    (host name : Bytes) (removed : List ℕ) (s : Server)
    → Within removed (clear_room host name removed s).0
unfolding clear_room
clear_room-Within host name removed s c h = elim (Option-cases (lookup name s.rooms)) [
  | inl e ↦ rw (e, clear_room) h
  | inr (r, e) ↦
      rw (e, clear_room)
        (ground (arith, is_member-append c removed (split_queue host s.heap r.queue).0))
]

clear_room-After :
    {leaving : List ℕ} (host name : Bytes) (removed : List ℕ) (s : Server)
    → Within (clear_room host name removed s).0 leaving
    → After leaving (clear_room host name removed s).1 s
unfolding clear_room
clear_room-After host name removed s within = elim (Option-cases (lookup name s.rooms)) [
  | inl e ↦ rw (e, clear_room) same
  | inr (r, e) ↦ rw (e, clear_room) (cleared host name removed r s e (rw (e, clear_room) at within))
]

remove_rooms-Within :
    (host : Bytes) (names : List Bytes) (removed : List ℕ) (s : Server)
    → Within removed (remove_rooms host names removed s).0
unfolding remove_rooms
remove_rooms-Within host [] removed s c h = h
remove_rooms-Within host (name ∷ names) removed s c h =
    let (removed', s') = clear_room host name removed s in
    remove_rooms-Within host names removed' s' c (clear_room-Within host name removed s c h)

remove_rooms-After :
    {leaving : List ℕ} (host : Bytes) (names : List Bytes) (removed : List ℕ) (s : Server)
    → Within (remove_rooms host names removed s).0 leaving
    → After leaving (remove_rooms host names removed s).1 s
unfolding remove_rooms
remove_rooms-After host [] removed s within = same
remove_rooms-After host (name ∷ names) removed s within =
    let (removed', s') = clear_room host name removed s in
    remove_rooms-After host names removed' s' within
    ⨾ clear_room-After host name removed s
        (λ c h. within c (remove_rooms-Within host names removed' s' c h))

pub remove_from_all_room_queues_by_ip-After :
    (ip : Bytes) (s : Server)
    → (let (removed, t) = remove_from_all_room_queues_by_ip ip s in After removed t s)
unfolding remove_from_all_room_queues_by_ip
remove_from_all_room_queues_by_ip-After ip s = remove_rooms-After _ _ [] s (λ c h. h)
