-- ===== src/Server/Course/Onboard.antt =====
-- The course of giving a name, choosing a room and waiting for it, server/handler.go.
use net_cat.Base.{
  Bytes, bytes_eq, codes, trim_space, is_member, ==_iff, ℕ, suc, ◌≤◌, ◌<◌, true, ◌≡◌, refl, sym,
  subst, ◌⊎◌, inl, inr, List, [], ◌∷◌, ◌++◌, Option, none, some, Bool-cases, arith,
}
use net_cat.Client.{set_admin, set_last_activity}
use net_cat.Server.{Server, Room, QueueEntry, Now, is_shutting_down}
use net_cat.Server.Rooms.{get_or_create_room, put_room, check_room_capacity, remove_from_room_queue}
use net_cat.Server.Clients.{NameError, register_client, add_client, untrack_client}
use net_cat.Server.Admins.{is_known_admin}
use net_cat.Server.Session.{
  restore_known_admin, send_room_selection, after_register, name_checked, abandon, enqueue_in,
  check_or_queue_room, choose, read_room_choice, answer_queue,
}
use net_cat.Server.Course.{view, queue_at, In, After, same, unseen, ◌⨾◌, either}
use net_cat.Server.Course.Keep.{rewritten, on_client-After, send_to-After}
use net_cat.Server.Course.Rooms.{get_or_create_room-queue}
use net_cat.Server.Course.Queues.{In-split, In-front}
use net_cat.Server.Course.Removal.{remove_from_room_queue-After}
use net_cat.Server.Course.Inform.{send_lines-After}
use net_cat.Server.Course.Moderate.{all_closed, close-After, remove_client-After}
use net_cat.Server.Index.Change.{register_client-add}
use net_cat.Base.{bytes_eq_refl, ap}
use net_cat.Base.Assoc.{lookup-insert}
use net_cat.Server.Session.Endings.{abandon-IsOver}
use net_cat.Server.Course.Queues.{In-behind}
use net_cat.Server.Course.Sessions.{IsNumbered, HasPlace, Fares, After-HasPlace}

pub untrack_client-After :
    {leaving : List ℕ} (c : ℕ) (s : Server) → After leaving (untrack_client c s) s
unfolding untrack_client
untrack_client-After c s = unseen refl

restore_known_admin-After : (c : ℕ) (s : Server) → After [] (restore_known_admin c s) s
unfolding restore_known_admin set_admin
restore_known_admin-After c s =
    either (is_known_admin (s.heap c).username s)
      (send_to-After c _ _ ⨾ on_client-After c (set_admin true) s (λ h. h) (λ h. h) refl) same

send_room_selection-After : (c : ℕ) (s : Server) → After [] (send_room_selection c s) s
unfolding send_room_selection
send_room_selection-After c s = send_to-After c _ _ ⨾ send_lines-After [] c _ s

abandon-After : (leaving : List ℕ) (c : ℕ) (s : Server) → After leaving (abandon c s).1 s
unfolding abandon
abandon-After leaving c s =
    untrack_client-After c _ ⨾ close-After leaving c _ ⨾ remove_client-After leaving _ s

pub abandon-Fares : (c : ℕ) (s : Server) → Fares c s (abandon c s)
abandon-Fares c s = (abandon-After [] c s, unfold abandon in tt)

-- A client that leaves its queue is closed.
pub leave_queue-Fares :
    (room : Bytes) (id c : ℕ) (s : Server)
    → HasPlace room id c (view s)
    → Fares c s (abandon c (remove_from_room_queue room id s))
leave_queue-Fares room id c s (below, own, place) = (
  all_closed (c ∷ []) _ s (λ d h. over d h)
      (abandon-After (c ∷ []) c _
        ⨾ remove_from_room_queue-After room id s (λ e k p. ground (arith, own e k p))),
  unfold abandon in tt,
)
  where
    over :
        (d : ℕ)
        → is_member d (c ∷ []) ≡ true
        → ((abandon c (remove_from_room_queue room id s)).1.heap d).done ≡ true
    over d h =
        subst (λ (x : ℕ). ((abandon c (remove_from_room_queue room id s)).1.heap x).done ≡ true)
          (ground (arith, ==_iff c d)) (abandon-IsOver c (remove_from_room_queue room id s)).1

add_client-After :
    (now : Now) (c : ℕ) (name : Bytes) (s : Server) → After [] (add_client now c name s) s
unfolding add_client set_last_activity
add_client-After now c name s = on_client-After c _ _ (λ h. h) (λ h. h) refl ⨾ unseen refl

after_register-Fares :
    (now : Now) (c : ℕ) (name : Bytes) (o : NameError ⊎ Server) (s : Server)
    → register_client now c name s ≡ o
    → Fares c s (after_register c o s)
unfolding after_register
after_register-Fares now c name (inl problem) s e = (send_to-After c _ s, tt)
after_register-Fares now c name (inr t) s e =
    let (free, open_name, added) = register_client-add now c name s t e in
    (
      send_room_selection-After c _
          ⨾ restore_known_admin-After c t
          ⨾ subst (λ (x : Server). After [] x s) (sym added) (add_client-After now c name s),
      tt,
    )

pub name_checked-Fares :
    (now : Now) (c : ℕ) (name : Bytes) (o : Option Bytes) (s : Server)
    → Fares c s (name_checked now c name o s)
unfolding name_checked
name_checked-Fares now c name (some problem) s = (send_to-After c _ s, tt)
name_checked-Fares now c name none s = after_register-Fares now c name _ s refl

-- A room with a queue and a number.
queue_at-put :
    (room : Bytes) (r : Room) (n : ℕ) (s : Server)
    → queue_at room (view (record (put_room room r s) { next_entry = n })) ≡ r.queue
unfolding put_room
queue_at-put room r n s = ground (arith, lookup-insert room room r s.rooms, bytes_eq_refl room)

module _ (c : ℕ) (room : Bytes) (s : Server) (numbered : IsNumbered (view s)) where
  -- The queue with the new entry at its end.
  abbrev longer : List QueueEntry
  longer = (get_or_create_room room s).queue ++ record { client = c; id = s.next_entry } ∷ []

  abbrev queued : Server
  queued = record (put_room room (record (get_or_create_room room s) { queue = longer }) s) {
    next_entry = suc s.next_entry;
  }

  was_there :
      (e : QueueEntry) → In e (get_or_create_room room s).queue → In e (queue_at room (view s))
  was_there e h = subst (In e) (get_or_create_room-queue room s) h

  queued-After : After [] queued s
  unfolding put_room
  queued-After = record {
    course =
        rewritten [] room (record (get_or_create_room room s) { queue = longer }) (suc s.next_entry)
          s.admitted (view s) (omega arith) (λ id h. h)
          (λ e h. inl (
            In-front e (get_or_create_room room s).queue _
              (subst (In e) (sym (get_or_create_room-queue room s)) h)))
          (λ e h. new_or_old e (In-split e (get_or_create_room room s).queue _ h));
  }
    where
      new_or_old :
          (e : QueueEntry)
          → In e (get_or_create_room room s).queue
            ⊎ In e (record { client = c; id = s.next_entry } ∷ [])
          → In e (queue_at room (view s)) ⊎ ((s.next_entry ≤ e.id) × (e.id < suc s.next_entry))
      new_or_old e (inl h) = inl (was_there e h)
      new_or_old e (inr (inl p)) =
          let number : s.next_entry ≡ e.id = ap (λ (x : QueueEntry). x.id) p in
          inr (omega arith, omega arith)
      new_or_old e (inr (inr h)) = absurd h

  queued-HasPlace : HasPlace room s.next_entry c (view queued)
  queued-HasPlace =
      let at =
        queue_at-put room (record (get_or_create_room room s) { queue = longer }) (suc s.next_entry)
          s in
      (
        unfold put_room in omega arith,
        λ e h p. own e p (In-split e (get_or_create_room room s).queue _ (subst (In e) at h)),
        inl (
            subst (In (record { client = c; id = s.next_entry })) (sym at)
              (In-behind _ (get_or_create_room room s).queue _ (inl refl))),
      )
    where
      own :
          (e : QueueEntry)
          → e.id ≡ s.next_entry
          → In e (get_or_create_room room s).queue
            ⊎ In e (record { client = c; id = s.next_entry } ∷ [])
          → e.client ≡ c
      own e p (inl h) = absurd (omega (arith, numbered room e (was_there e h)))
      own e p (inr (inl q)) = sym (ap (λ (x : QueueEntry). x.client) q)
      own e p (inr (inr h)) = absurd h

  enqueue_in-Fares : Fares c s (enqueue_in c room (get_or_create_room room s) s)
  unfolding enqueue_in
  enqueue_in-Fares =
      let told = send_to-After {leaving = []} c _ queued in
      (told ⨾ queued-After, After-HasPlace _ queued told room s.next_entry c queued-HasPlace)

  check_or_queue_room-Fares : Fares c s (check_or_queue_room c room s)
  unfolding check_or_queue_room
  check_or_queue_room-Fares = elim (Bool-cases (is_shutting_down s)) [
    | inl q ↦ rw (q, check_or_queue_room) (abandon-Fares c s)
    | inr q ↦ elim (Bool-cases (check_room_capacity room s)) [
      | inl e ↦ rw (q, e, check_or_queue_room) (same, tt)
      | inr e ↦ rw (q, e, check_or_queue_room) enqueue_in-Fares
    ]
  ]

choose-Fares :
    (c : ℕ) (room : Bytes) (o : Option Bytes) (s : Server)
    → IsNumbered (view s)
    → Fares c s (choose c room o s)
unfolding choose
choose-Fares c room (some problem) s h = (send_to-After c _ s, tt)
choose-Fares c room none s h = check_or_queue_room-Fares c room s h

pub read_room_choice-Fares :
    (c : ℕ) (line : Bytes) (s : Server)
    → IsNumbered (view s)
    → Fares c s (read_room_choice c line s)
unfolding read_room_choice
read_room_choice-Fares c line s h = elim (Bool-cases (bytes_eq (trim_space line) [])) [
  | inl e ↦ rw (e, read_room_choice) (check_or_queue_room-Fares c _ s h)
  | inr e ↦ rw (e, read_room_choice) (choose-Fares c _ _ s h)
]

pub answer_queue-Fares :
    (c : ℕ) (room : Bytes) (id : ℕ) (line : Bytes) (s : Server)
    → HasPlace room id c (view s)
    → Fares c s (answer_queue c room id line s)
unfolding answer_queue
answer_queue-Fares c room id line s h =
    let told = send_to-After {leaving = []} c _ s in
    elim (Bool-cases (bytes_eq (trim_space line) (codes "yes"))) [
      | inl e ↦ rw (e, answer_queue) (told, After-HasPlace _ s told room id c h)
      | inr e ↦ elim (Bool-cases (bytes_eq (trim_space line) (codes "no"))) [
        | inl n ↦ rw (e, n, answer_queue) (leave_queue-Fares room id c s h)
        | inr n ↦
            let asked = send_to-After {leaving = []} c _ s in
            rw (e, n, answer_queue) (asked, After-HasPlace _ s asked room id c h)
      ]
    ]
