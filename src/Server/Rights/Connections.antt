-- ===== src/Server/Rights/Connections.antt =====
-- The lines of a connection in every phase, server/handler.go, as to the rights.
use net_cat.Base.{
  Bytes, codes, bytes_eq, trim_space, ℕ, Bool, true, false, ◌||◌, ◌≡◌, refl, ◌∙◌, [], Option, none,
  some, inl, inr, arith, Bool-cases, Option-cases,
}
use net_cat.Base.Assoc.{lookup}
use net_cat.Client.{close}
use net_cat.Server.{Server, Room, Now, on_client, is_shutting_down}
use net_cat.Server.Rooms.{
  check_room_capacity, remove_from_room_queue, drop_entry, delete_room_if_empty,
  admit_from_room_queue,
}
use net_cat.Server.Clients.{untrack_client}
use net_cat.Server.Admins.{is_known_admin}
use net_cat.Server.Session.{
  Phase, naming, choosing, chatting, gone, answering, waiting, joining, abandon, enqueue_in,
  check_or_queue_room, choose, read_room_choice, answer_queue,
}
use net_cat.Server.Session.Steps.{cleanup_connection, end_session, after_line, on_line}
use net_cat.Server.Rights.{Rights, rights}
use net_cat.Server.Rights.Keep.{
  send_to-rights, put_room-rights, send_positions-rights, admit_from_room_queue-rights,
  delete_room_if_empty-rights,
}
use net_cat.Server.Rights.Travel.{announce_leave-rights}
use net_cat.Server.Rights.Grants.{admins_at, close-rights, remove_client-rights}
use net_cat.Server.Rights.Guard.{serve_line-rights}

untrack_client-rights : (c : ℕ) (s : Server) → rights (untrack_client c s) ≡ rights s
unfolding untrack_client rights
untrack_client-rights c s = refl

abandon-rights : (c : ℕ) (s : Server) → rights (abandon c s).1 ≡ rights s
unfolding abandon
abandon-rights c s =
    untrack_client-rights c _ ∙ close-rights c _ ∙ remove_client-rights (s.heap c).username s

remove_from_room_queue-rights :
    (name : Bytes) (id : ℕ) (s : Server) → rights (remove_from_room_queue name id s) ≡ rights s
unfolding remove_from_room_queue
remove_from_room_queue-rights name id s = elim (Option-cases (lookup name s.rooms)) [
  | inl e ↦ rw (e, remove_from_room_queue) refl
  | inr (r, e) ↦
      rw (e, remove_from_room_queue)
        (send_positions-rights 0 (drop_entry id r.queue) _ ∙ put_room-rights name _ s)
]

numbered-rights : (n : ℕ) (s : Server) → rights (record s { next_entry = n }) ≡ rights s
unfolding rights
numbered-rights n s = refl

enqueue_in-rights :
    (c : ℕ) (room : Bytes) (r : Room) (s : Server) → rights (enqueue_in c room r s).1 ≡ rights s
unfolding enqueue_in
enqueue_in-rights c room r s = send_to-rights c _ _ ∙ numbered-rights _ _ ∙ put_room-rights room _ s

check_or_queue_room-rights :
    (c : ℕ) (room : Bytes) (s : Server) → rights (check_or_queue_room c room s).1 ≡ rights s
unfolding check_or_queue_room
check_or_queue_room-rights c room s = elim (Bool-cases (is_shutting_down s)) [
  | inl q ↦ rw (q, check_or_queue_room) (abandon-rights c s)
  | inr q ↦ elim (Bool-cases (check_room_capacity room s)) [
    | inl e ↦ rw (q, e, check_or_queue_room) refl
    | inr e ↦ rw (q, e, check_or_queue_room) (enqueue_in-rights c room _ s)
  ]
]

choose-rights :
    (c : ℕ) (room : Bytes) (o : Option Bytes) (s : Server) → rights (choose c room o s).1 ≡ rights s
unfolding choose
choose-rights c room (some problem) s = send_to-rights c _ s
choose-rights c room none s = check_or_queue_room-rights c room s

read_room_choice-rights :
    (c : ℕ) (line : Bytes) (s : Server) → rights (read_room_choice c line s).1 ≡ rights s
unfolding read_room_choice
read_room_choice-rights c line s = elim (Bool-cases (bytes_eq (trim_space line) [])) [
  | inl e ↦ rw (e, read_room_choice) (check_or_queue_room-rights c _ s)
  | inr e ↦ rw (e, read_room_choice) (choose-rights c _ _ s)
]

answer_queue-rights :
    (c : ℕ) (room : Bytes) (id : ℕ) (line : Bytes) (s : Server)
    → rights (answer_queue c room id line s).1 ≡ rights s
unfolding answer_queue
answer_queue-rights c room id line s =
    elim (Bool-cases (bytes_eq (trim_space line) (codes "yes"))) [
      | inl e ↦ rw (e, answer_queue) (send_to-rights c _ s)
      | inr e ↦ elim (Bool-cases (bytes_eq (trim_space line) (codes "no"))) [
        | inl n ↦
            rw (e, n, answer_queue) (abandon-rights c _ ∙ remove_from_room_queue-rights room id s)
        | inr n ↦ rw (e, n, answer_queue) (send_to-rights c _ s)
      ]
    ]

end_session-rights : (now : Now) (c : ℕ) (s : Server) → rights (end_session now c s).1 ≡ rights s
unfolding end_session cleanup_connection
end_session-rights now c s =
    elim (Bool-cases (
      bytes_eq (s.heap c).disconnect_reason (codes "kicked")
      || bytes_eq (s.heap c).disconnect_reason (codes "banned"))) [
        | inl e ↦ rw (e, end_session, cleanup_connection) (tail s)
        | inr e ↦
            rw (e, end_session, cleanup_connection)
              (tail _ ∙ announce_leave-rights now _ _ _ _ ∙ remove_client-rights _ s)
      ]
  where
    tail :
        (t : Server)
        → rights (
            untrack_client c (
              on_client c close
                (delete_room_if_empty (s.heap c).room (admit_from_room_queue (s.heap c).room t))))
          ≡ rights t
    tail t =
        untrack_client-rights c _
        ∙ close-rights c _
        ∙ delete_room_if_empty-rights _ _
        ∙ admit_from_room_queue-rights _ t

after_line-rights :
    (now : Now) (c : ℕ) (r : Bool × Server) → rights (after_line now c r).1 ≡ rights r.1
unfolding after_line
after_line-rights now c (true, s) = end_session-rights now c s
after_line-rights now c (false, s) = refl

-- Whether the connection reads a name.
abbrev pub is_naming : Phase → Bool
is_naming naming = true
is_naming choosing = false
is_naming chatting = false
is_naming gone = false
is_naming (answering room id) = false
is_naming (waiting room id) = false
is_naming (joining room) = false

-- Whatever line a connection of a client that is no admin reads, in whatever phase after the name
-- prompt, nobody becomes an admin or ceases to be one, nobody is muted or unmuted, the list of
-- known admins stays, and no address is banned or blocked.
pub on_line-rights :
    (now : Now) (c : ℕ) (p : Phase) (line : Bytes) (s : Server)
    → is_naming p ≡ false
    → (s.heap c).admin ≡ false
    → rights (on_line now c p line s).1 ≡ rights s
unfolding on_line
on_line-rights now c naming line s named plain = absurd (ground arith)
on_line-rights now c choosing line s named plain = read_room_choice-rights c line s
on_line-rights now c chatting line s named plain =
    after_line-rights now c _ ∙ serve_line-rights now c line s plain
on_line-rights now c (answering room id) line s named plain = answer_queue-rights c room id line s
on_line-rights now c (waiting room id) line s named plain = refl
on_line-rights now c (joining room) line s named plain = refl
on_line-rights now c gone line s named plain = refl

-- How the admin flag of a client may come to differ: it is a client that takes a known admin's name.
abbrev pub Restores : ℕ → Phase → Bytes → ℕ → Server → Server → Type 0
Restores c p line i s t =
    (is_naming p ≡ true) × (i ≡ c) × (is_known_admin line s ≡ true) × (admins_at t c ≡ true)
