-- ===== src/Server/Course/Queues.antt =====
-- The course of the queues of server/room.go.
use net_cat.Base.{
  Bytes, is_member, ℕ, suc, ==_iff, true, ◌≡◌, sym, subst, ◌⊎◌, inl, inr, List, [], ◌∷◌, ◌++◌,
  Option, none, some, arith, All, Option-cases,
}
use net_cat.Base.Assoc.{lookup}
use net_cat.Client.{Client, is_closed}
use net_cat.Server.{Server, Room, QueueEntry, is_shutting_down}
use net_cat.Server.Rooms.{put_room, send_positions, admit_next, admit_from_room_queue}
use net_cat.Server.Rooms.Queue.{IsGone, IsNext, next_open-IsNext}
use net_cat.Server.Course.{view, queue_in, In, MayLeave, After, same, ◌⨾◌, either}
use net_cat.Server.Course.Keep.{rewritten, send_to-After}

pub send_positions-After :
    {leaving : List ℕ} (i : ℕ) (es : List QueueEntry) (s : Server)
    → After leaving (send_positions i es s) s
unfolding send_positions
send_positions-After i [] s = same
send_positions-After i (e ∷ es) s = send_positions-After (suc i) es _ ⨾ send_to-After e.client _ s

pub In-behind : (e : QueueEntry) (front back : List QueueEntry) → In e back → In e (front ++ back)
In-behind e [] back h = h
In-behind e (x ∷ front) back h = inr (In-behind e front back h)

pub In-front : (e : QueueEntry) (front back : List QueueEntry) → In e front → In e (front ++ back)
In-front e (x ∷ front) back (inl p) = inl p
In-front e (x ∷ front) back (inr h) = inr (In-front e front back h)
In-front e [] back h = absurd h

pub In-split :
    (e : QueueEntry) (front back : List QueueEntry) → In e (front ++ back) → In e front ⊎ In e back
In-split e [] back h = inr h
In-split e (x ∷ front) back (inl p) = inl (inl p)
In-split e (x ∷ front) back (inr h) = further (In-split e front back h)
  where
    further : In e front ⊎ In e back → In e (x ∷ front) ⊎ In e back
    further (inl k) = inl (inr k)
    further (inr k) = inr k

gone-done :
    (heap : ℕ → Client) (e : QueueEntry) (q : List QueueEntry)
    → All (IsGone heap) q
    → In e q
    → (heap e.client).done ≡ true
unfolding is_closed
gone-done heap e [] h k = absurd k
gone-done heap e (x ∷ q) (g, h) (inl p) =
    subst (λ (y : QueueEntry). (heap y.client).done ≡ true) p g
gone-done heap e (x ∷ q) (g, h) (inr k) = gone-done heap e q h k

-- A room whose queue loses some entries.
module _ {leaving : List ℕ} (name : Bytes) (r : Room) (s : Server)
    (found : lookup name s.rooms ≡ some r) where
  pub shortened :
      (q : List QueueEntry) (ids : List ℕ)
      → ((id : ℕ) → is_member id s.admitted ≡ true → is_member id ids ≡ true)
      → ((e : QueueEntry)
          → In e r.queue
          → In e q ⊎ MayLeave leaving (record (view s) { admitted = ids }) e)
      → ((e : QueueEntry) → In e q → In e r.queue)
      → After leaving (record (put_room name (record r { queue = q }) s) { admitted = ids }) s
  unfolding put_room
  shortened q ids admits stays comes = record {
    course =
        rewritten leaving name (record r { queue = q }) s.next_entry ids (view s) (omega arith)
          admits (λ e h. stays e (subst (λ (o : Option Room). In e (queue_in o)) found h))
          (λ e h. inl (subst (λ (o : Option Room). In e (queue_in o)) (sym found) (comes e h)));
  }

  -- The same, nobody being admitted.
  pub requeued :
      (q : List QueueEntry)
      → ((e : QueueEntry) → In e r.queue → In e q ⊎ MayLeave leaving (view s) e)
      → ((e : QueueEntry) → In e q → In e r.queue)
      → After leaving (put_room name (record r { queue = q }) s) s
  unfolding put_room
  requeued q stays comes = shortened q s.admitted (λ id h. h) stays comes

  admit_next-After :
      (o : Option (QueueEntry × List QueueEntry))
      → IsNext s.heap r.queue o
      → After leaving (admit_next name r o s) s
  unfolding admit_next put_room
  admit_next-After none gone =
      requeued [] (λ e h. inr (inr (inl (gone-done s.heap e r.queue gone h)))) (λ e h. absurd h)
  admit_next-After (some (e, es)) (open_conn, front, gone, split) =
      send_positions-After 0 es _
      ⨾ shortened es (e.id ∷ s.admitted) (λ id h. ground arith)
          (λ x h. leaves x (In-split x front (e ∷ es) (subst (In x) split h)))
          (λ x h. subst (In x) (sym split) (In-behind x front (e ∷ es) (inr h)))
    where
      leaves :
          (x : QueueEntry)
          → In x front ⊎ In x (e ∷ es)
          → In x es ⊎ MayLeave leaving (record (view s) { admitted = e.id ∷ s.admitted }) x
      leaves x (inl h) = inr (inr (inl (gone-done s.heap x front gone h)))
      leaves x (inr (inl p)) = inr (inl (ground (arith, ==_iff e.id x.id)))
      leaves x (inr (inr h)) = inl h

pub admit_from_room_queue-After :
    {leaving : List ℕ} (name : Bytes) (s : Server) → After leaving (admit_from_room_queue name s) s
unfolding admit_from_room_queue
admit_from_room_queue-After name s =
    either (is_shutting_down s) same (elim (Option-cases (lookup name s.rooms)) [
      | inl e ↦ rw e same
      | inr (r, e) ↦ rw e (admit_next-After name r s e _ (next_open-IsNext s.heap r.queue))
    ])
