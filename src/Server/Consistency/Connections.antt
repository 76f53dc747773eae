-- ===== src/Server/Consistency/Connections.antt =====
-- Giving a name, choosing a room and waiting for it, server/handler.go, as to the indexes.
use net_cat.Base.{
  Bytes, codes, bytes_eq, trim_space, ℕ, true, ◌≡◌, ◌≢◌, refl, sym, ◌∙◌, subst, [], Option, none,
  some, inl, inr, ◌⊎◌, Bool-cases,
}
use net_cat.Server.{Server, Now, is_shutting_down}
use net_cat.Server.Rooms.{get_or_create_room, check_room_capacity}
use net_cat.Server.Clients.{NameError, register_client, remove_client, untrack_client}
use net_cat.Server.Admins.{is_known_admin}
use net_cat.Server.Session.{
  Phase, naming, choosing, chatting, gone, answering, waiting, joining, restore_known_admin,
  send_room_selection, after_register, name_checked, abandon, enqueue_in, check_or_queue_room,
  choose, read_room_choice, answer_queue,
}
use net_cat.Server.Index.{Index, index, IsConsistent}
use net_cat.Server.Index.Keep.{send_to-index, put_room-index, get_or_create_room-members}
use net_cat.Server.Index.Keep.Queues.{remove_from_room_queue-index}
use net_cat.Server.Index.Spec.{take_name-IsConsistent}
use net_cat.Server.Index.Change.{register_client-take_name}
use net_cat.Server.Consistency.{kept, send_lines-index}
use net_cat.Server.Consistency.Moderate.{remove_client-IsConsistent, close-index}
use net_cat.Server.Consistency.Status.{set_admin-index}

pub untrack_client-index : (c : ℕ) (s : Server) → index (untrack_client c s) ≡ index s
unfolding untrack_client index
untrack_client-index c s = refl

restore_known_admin-index : (c : ℕ) (s : Server) → index (restore_known_admin c s) ≡ index s
unfolding restore_known_admin
restore_known_admin-index c s = elim (Bool-cases (is_known_admin (s.heap c).username s)) [
  | inl e ↦ rw (e, restore_known_admin) (send_to-index c _ _ ∙ set_admin-index true c s)
  | inr e ↦ rw (e, restore_known_admin) refl
]

send_room_selection-index : (c : ℕ) (s : Server) → index (send_room_selection c s) ≡ index s
unfolding send_room_selection
send_room_selection-index c s = send_to-index c _ _ ∙ send_lines-index c _ s

-- What the indexes say of a client in each phase.
abbrev pub Fits : Phase → ℕ → Index → Type 0
Fits naming c x = ((n : Bytes) → x.client_at n ≢ some c) × (x.room_at c ≡ [])
Fits choosing c x = x.client_at (x.username_at c) ≡ some c
Fits chatting c x = x.client_at (x.username_at c) ≡ some c
Fits (answering room id) c x = x.client_at (x.username_at c) ≡ some c
Fits (waiting room id) c x = x.client_at (x.username_at c) ≡ some c
Fits (joining room) c x = (x.client_at (x.username_at c) ≡ some c) × (room ≢ [])
Fits gone c x = Unit

module _ (c : ℕ) (s : Server) (v : IsConsistent (index s)) where
  pub abandon-IsConsistent : IsConsistent (index (abandon c s).1)
  unfolding abandon
  abandon-IsConsistent =
      kept (remove_client (s.heap c).username s) _ (untrack_client-index c _ ∙ close-index c _)
        (remove_client-IsConsistent (s.heap c).username s v)

module _ (now : Now) (c : ℕ) (s : Server) (v : IsConsistent (index s)) where
  after_register-IsConsistent :
      (name : Bytes) (o : NameError ⊎ Server)
      → Fits naming c (index s)
      → register_client now c name s ≡ o
      → IsConsistent (index (after_register c o s).1)
  unfolding after_register
  after_register-IsConsistent name (inl problem) fits e = kept s _ (send_to-index c _ s) v
  after_register-IsConsistent name (inr t) (fresh, nowhere) e =
      let (free, open_name, changed) = register_client-take_name now c name s t e in
      kept t _ (send_room_selection-index c _ ∙ restore_known_admin-index c t) (
        subst IsConsistent (sym changed) (
          take_name-IsConsistent (index s) v c name (unfold index in free) (unfold index in λ p. cc)
            fresh nowhere))

  pub name_checked-IsConsistent :
      (name : Bytes) (o : Option Bytes)
      → Fits naming c (index s)
      → IsConsistent (index (name_checked now c name o s).1)
  unfolding name_checked
  name_checked-IsConsistent name (some problem) fits = kept s _ (send_to-index c _ s) v
  name_checked-IsConsistent name none fits = after_register-IsConsistent name _ fits refl

numbered : (n : ℕ) (t : Server) → index (record t { next_entry = n }) ≡ index t
unfolding index
numbered n t = refl

enqueue_in-index :
    (c : ℕ) (room : Bytes) (s : Server)
    → index (enqueue_in c room (get_or_create_room room s) s).1 ≡ index s
unfolding enqueue_in
enqueue_in-index c room s =
    send_to-index c _ _
    ∙ numbered _ _
    ∙ put_room-index room _ s (λ n. get_or_create_room-members room n s)

check_or_queue_room-IsConsistent :
    (c : ℕ) (room : Bytes) (s : Server)
    → IsConsistent (index s)
    → IsConsistent (index (check_or_queue_room c room s).1)
unfolding check_or_queue_room
check_or_queue_room-IsConsistent c room s v = elim (Bool-cases (is_shutting_down s)) [
  | inl q ↦ rw (q, check_or_queue_room) (abandon-IsConsistent c s v)
  | inr q ↦ elim (Bool-cases (check_room_capacity room s)) [
    | inl e ↦ rw (q, e, check_or_queue_room) v
    | inr e ↦ rw (q, e, check_or_queue_room) (kept s _ (enqueue_in-index c room s) v)
  ]
]

choose-IsConsistent :
    (c : ℕ) (room : Bytes) (o : Option Bytes) (s : Server)
    → IsConsistent (index s)
    → IsConsistent (index (choose c room o s).1)
unfolding choose
choose-IsConsistent c room (some problem) s v = kept s _ (send_to-index c _ s) v
choose-IsConsistent c room none s v = check_or_queue_room-IsConsistent c room s v

pub read_room_choice-IsConsistent :
    (c : ℕ) (line : Bytes) (s : Server)
    → IsConsistent (index s)
    → IsConsistent (index (read_room_choice c line s).1)
unfolding read_room_choice
read_room_choice-IsConsistent c line s v = elim (Bool-cases (bytes_eq (trim_space line) [])) [
  | inl e ↦ rw (e, read_room_choice) (check_or_queue_room-IsConsistent c _ s v)
  | inr e ↦ rw (e, read_room_choice) (choose-IsConsistent c _ _ s v)
]

pub answer_queue-IsConsistent :
    (c : ℕ) (room : Bytes) (id : ℕ) (line : Bytes) (s : Server)
    → IsConsistent (index s)
    → IsConsistent (index (answer_queue c room id line s).1)
unfolding answer_queue
answer_queue-IsConsistent c room id line s v =
    elim (Bool-cases (bytes_eq (trim_space line) (codes "yes"))) [
      | inl e ↦ rw (e, answer_queue) (kept s _ (send_to-index c _ s) v)
      | inr e ↦ elim (Bool-cases (bytes_eq (trim_space line) (codes "no"))) [
        | inl n ↦
            rw (e, n, answer_queue)
              (abandon-IsConsistent c _ (kept s _ (remove_from_room_queue-index room id s) v))
        | inr n ↦ rw (e, n, answer_queue) (kept s _ (send_to-index c _ s) v)
      ]
    ]
