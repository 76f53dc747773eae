-- ===== src/Server/Session/Admission.antt =====
-- What becomes of a client that waits for a room, server/handler.go with server/room.go.
use net_cat.Base.{
  is_member, Bytes, bytes_eq_refl, ℕ, suc, true, false, ◌≡◌, refl, sym, ◌∙◌, ap, List, [], ◌∷◌,
  Option, some, arith,
}
use net_cat.Base.Assoc.{lookup, insert, lookup-insert}
use net_cat.Client.{Client}
use net_cat.Server.{Server, send_to, Room, Now, QueueEntry, is_shutting_down, on_client}
use net_cat.Server.Rooms.{
  next_open, admit_next, admit_from_room_queue, send_positions, put_room, drop_member, enter_room,
  join_room, get_or_create_room,
}
use net_cat.Server.Session.{chatting, waiting, joining, ReadError}
use net_cat.Server.Session.Endings.{IsOver, on_read_error-IsOver}
use net_cat.Server.Course.{After}
use net_cat.Server.Session.Steps.{
  admit_opened, select_signal, on_signal, on_join, on_read_error, enter_session,
}
use net_cat.Server.Index.{Index, index}
use net_cat.Server.Consistency.SessionSteps.{prepare_client_session-index}

-- The index after `JoinRoom`, as to the client and its new room.
pub drop_member-heap : (c : ℕ) (name : Bytes) (s : Server) → (drop_member c name s).heap ≡ s.heap
unfolding drop_member put_room
drop_member-heap c name s = ground arith

enter_room-member :
    (c : ℕ) (room : Bytes) (s : Server)
    → ((index (enter_room c room s)).member_at room (s.heap c).username ≡ some c)
      × ((index (enter_room c room s)).room_at c ≡ room)
unfolding enter_room index put_room on_client
enter_room-member c room s =
    let r = get_or_create_room room s in
    let name = (s.heap c).username in
    let inserted = insert name c r.clients in
    (
      ground (
        arith,
        lookup-insert room room (record r { clients = inserted }) s.rooms,
        bytes_eq_refl room,
        lookup-insert name name c r.clients,
        bytes_eq_refl name,
      ),
      ground arith,
    )

pub join_room-member :
    (c : ℕ) (room : Bytes) (s : Server)
    → ((index (join_room c room s)).member_at room (s.heap c).username ≡ some c)
      × ((index (join_room c room s)).room_at c ≡ room)
unfolding join_room
join_room-member c room s =
    let (h, k) = enter_room-member c room (drop_member c (s.heap c).username s) in
    (
      ap {B = Option ℕ}
            (λ (f : ℕ → Client). (index (join_room c room s)).member_at room (f c).username)
            (sym (drop_member-heap c (s.heap c).username s))
          ∙ unfold join_room in h,
      k,
    )

send_positions-admitted :
    (i : ℕ) (es : List QueueEntry) (s : Server) → (send_positions i es s).admitted ≡ s.admitted
unfolding send_positions
send_positions-admitted i [] s = refl
send_positions-admitted i (e ∷ es) s =
    send_positions-admitted (suc i) es _ ∙ (unfold send_to on_client in refl)

admit_from_room_queue-admitted :
    (room : Bytes) (r : Room) (e : QueueEntry) (es : List QueueEntry) (s : Server)
    → s.quit ≡ false
    → lookup room s.rooms ≡ some r
    → next_open s.heap r.queue ≡ some (e, es)
    → (admit_from_room_queue room s).admitted ≡ e.id ∷ s.admitted
unfolding admit_from_room_queue admit_next is_shutting_down
admit_from_room_queue-admitted room r e es s q found next =
    rw (q, found, next) (send_positions-admitted 0 es _)

on_signal-admitted :
    (c : ℕ) (room : Bytes) (id : ℕ) (s : Server)
    → is_member id s.admitted ≡ true
    → on_signal c admit_opened (waiting room id) s ≡ (joining room, s)
unfolding on_signal select_signal
on_signal-admitted c room id s h = rw h refl

enter_session-member :
    (now : Now) (c : ℕ) (room : Bytes) (s : Server)
    → (let u = (enter_session now c room s).1 in
        ((index u).member_at room (s.heap c).username ≡ some c) × ((index u).room_at c ≡ room))
unfolding enter_session
enter_session-member now c room s =
    let same = prepare_client_session-index now c (join_room c room s) in
    let (member, place) = join_room-member c room s in
    (
      ap {B = Option ℕ} (λ (x : Index). x.member_at room (s.heap c).username) same ∙ member,
      ap {B = Bytes} (λ (x : Index). x.room_at c) same ∙ place,
    )

-- When a slot opens while the server runs, the first open entry of the room's queue gets it for
-- good: on any later server, the client that waits with this entry goes on to join when it takes
-- the admit branch of its select, and after it has joined it chats, is a member of the room under
-- its name, and says that it is there. If its read fails before it takes that branch, its
-- connection is over instead.
pub admit_from_room_queue-joins :
    (now : Now) (room : Bytes) (r : Room) (e : QueueEntry) (es : List QueueEntry) (s t : Server)
    → s.quit ≡ false
    → lookup room s.rooms ≡ some r
    → next_open s.heap r.queue ≡ some (e, es)
    → After [] t (admit_from_room_queue room s)
    → (let c = e.client in
        let (phase, u) = on_join now c (joining room) t in
        (on_signal c admit_opened (waiting room e.id) t ≡ (joining room, t))
        × (phase ≡ chatting)
        × ((index u).member_at room (t.heap c).username ≡ some c)
        × ((index u).room_at c ≡ room)
        × ((err : ReadError) → IsOver c (on_read_error now c (waiting room e.id) err t)))
unfolding on_join
admit_from_room_queue-joins now room r e es s t q found next later =
    let c = e.client in
    let opened =
      later.course.admits e.id
        (rw (admit_from_room_queue-admitted room r e es s q found next) (heads e.id s.admitted)) in
    let (member, place) = enter_session-member now c room t in
    (
      on_signal-admitted c room e.id t opened,
      unfold enter_session in refl,
      member,
      place,
      λ err. on_read_error-IsOver now c (waiting room e.id) err t refl,
    )
  where
    heads : (id : ℕ) (ids : List ℕ) → is_member id (id ∷ ids) ≡ true
    heads id ids = ground arith
