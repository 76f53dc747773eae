-- ===== src/Server/Rights/Keep.antt =====
-- The operations of server/room.go and of messages, as to the rights.
use net_cat.Base.{
  Bytes, bytes_eq, ℕ, suc, ◌&&◌, ◌≡◌, refl, ◌∙◌, List, [], ◌∷◌, Option, none, some, inl, inr,
  ==_iff, arith, Bool-cases, Option-cases,
}
use mathlib.Core.Path.{fun_ext}
use net_cat.Base.Assoc.{Assoc, lookup}
use net_cat.Base.Heap.{update}
use net_cat.Models.{Message}
use net_cat.Client.{Client, WriteMsg, enqueue, send, send_prompt}
use net_cat.Server.{
  Server, Room, Now, QueueEntry, is_shutting_down, on_client, send_to, prompt_to, log_to,
}
use net_cat.Server.Rooms.{
  put_room, add_room_history, record_room_event, delete_room_if_empty, is_empty, send_except,
  broadcast_room, send_positions, next_open, admit_next, admit_from_room_queue, drop_member,
  enter_room, join_room,
}
use net_cat.Server.Commands.{reply}
use net_cat.Server.Commands.Inform.{send_lines}
use net_cat.Server.Rights.{rights}

-- A change of a client that keeps its flags.
pub on_client-rights :
    (c : ℕ) (f : Client → Client) (s : Server)
    → (f (s.heap c)).admin ≡ (s.heap c).admin
    → (f (s.heap c)).muted ≡ (s.heap c).muted
    → rights (on_client c f s) ≡ rights s
unfolding on_client rights
on_client-rights c f s ha hm = λ i. record {
  admin_at =
      fun_ext {f = λ d. (update s.heap c (f (s.heap c)) d).admin} {g = λ d. (s.heap d).admin}
        (λ d. same_admin d) i;
  muted_at =
      fun_ext {f = λ d. (update s.heap c (f (s.heap c)) d).muted} {g = λ d. (s.heap d).muted}
        (λ d. same_muted d) i;
  known = s.admins;
  banned = s.banned_ips;
  cooling = s.kicked_ips;
}
  where
    same_admin : (d : ℕ) → (update s.heap c (f (s.heap c)) d).admin ≡ (s.heap d).admin
    same_admin d = ground (arith, ==_iff c d)

    same_muted : (d : ℕ) → (update s.heap c (f (s.heap c)) d).muted ≡ (s.heap d).muted
    same_muted d = ground (arith, ==_iff c d)

enqueue-admin : (m : WriteMsg) (d : Client) → (enqueue m d).admin ≡ d.admin
unfolding enqueue
enqueue-admin m d = ground arith

enqueue-muted : (m : WriteMsg) (d : Client) → (enqueue m d).muted ≡ d.muted
unfolding enqueue
enqueue-muted m d = ground arith

pub send_to-rights : (c : ℕ) (msg : Bytes) (s : Server) → rights (send_to c msg s) ≡ rights s
unfolding send_to send
send_to-rights c msg s =
    on_client-rights c (send msg) s (enqueue-admin _ (s.heap c)) (enqueue-muted _ (s.heap c))

pub prompt_to-rights : (now : Now) (c : ℕ) (s : Server) → rights (prompt_to now c s) ≡ rights s
unfolding prompt_to send_prompt
prompt_to-rights now c s =
    on_client-rights c (send_prompt _) s (enqueue-admin _ (s.heap c)) (enqueue-muted _ (s.heap c))

pub reply-rights :
    (now : Now) (c : ℕ) (msg : Bytes) (s : Server) → rights (reply now c msg s) ≡ rights s
unfolding reply
reply-rights now c msg s = prompt_to-rights now c (send_to c msg s) ∙ send_to-rights c msg s

pub send_lines-rights :
    (c : ℕ) (ls : List Bytes) (s : Server) → rights (send_lines c ls s) ≡ rights s
unfolding send_lines
send_lines-rights c [] s = refl
send_lines-rights c (l ∷ ls) s = send_lines-rights c ls (send_to c l s) ∙ send_to-rights c l s

log_to-rights : (msg : Message) (s : Server) → rights (log_to msg s) ≡ rights s
unfolding log_to rights
log_to-rights msg s = elim (Option-cases s.logger) [ inl e ↦ rw e refl | inr (l, e) ↦ rw e refl ]

pub put_room-rights : (name : Bytes) (r : Room) (s : Server) → rights (put_room name r s) ≡ rights s
unfolding put_room rights
put_room-rights name r s = refl

add_room_history-rights :
    (name : Bytes) (msg : Message) (s : Server) → rights (add_room_history name msg s) ≡ rights s
unfolding add_room_history
add_room_history-rights name msg s = put_room-rights name _ s

pub record_room_event-rights :
    (name : Bytes) (msg : Message) (s : Server) → rights (record_room_event name msg s) ≡ rights s
unfolding record_room_event
record_room_event-rights name msg s = log_to-rights _ _ ∙ add_room_history-rights name _ s

send_except-rights :
    (msg exclude : Bytes) (m : Assoc ℕ) (s : Server)
    → rights (send_except msg exclude m s) ≡ rights s
unfolding send_except
send_except-rights msg exclude [] s = refl
send_except-rights msg exclude ((name, c) ∷ m) s = elim (Bool-cases (bytes_eq name exclude)) [
  | inl e ↦ rw (e, send_except) (send_except-rights msg exclude m s)
  | inr e ↦
      rw (e, send_except)
        (send_except-rights msg exclude m (send_to c msg s) ∙ send_to-rights c msg s)
]

pub broadcast_room-rights :
    (name msg exclude : Bytes) (s : Server) → rights (broadcast_room name msg exclude s) ≡ rights s
unfolding broadcast_room
broadcast_room-rights name msg exclude s = elim (Option-cases (lookup name s.rooms)) [
  | inl e ↦ rw (e, broadcast_room) refl
  | inr (r, e) ↦ rw (e, broadcast_room) (send_except-rights msg exclude r.clients s)
]

pub send_positions-rights :
    (i : ℕ) (es : List QueueEntry) (s : Server) → rights (send_positions i es s) ≡ rights s
unfolding send_positions
send_positions-rights i [] s = refl
send_positions-rights i (e ∷ es) s =
    send_positions-rights (suc i) es _ ∙ send_to-rights e.client _ s

admit_next-rights :
    (name : Bytes) (r : Room) (o : Option (QueueEntry × List QueueEntry)) (s : Server)
    → rights (admit_next name r o s) ≡ rights s
unfolding admit_next put_room send_positions rights
admit_next-rights name r none s = refl
admit_next-rights name r (some (e, es)) s = send_positions-rights 0 es _

pub admit_from_room_queue-rights :
    (name : Bytes) (s : Server) → rights (admit_from_room_queue name s) ≡ rights s
unfolding admit_from_room_queue
admit_from_room_queue-rights name s = elim (Bool-cases (is_shutting_down s)) [
  | inl q ↦ rw q refl
  | inr q ↦ rw q (elim (Option-cases (lookup name s.rooms)) [
    | inl e ↦ rw e refl
    | inr (r, e) ↦ rw e (admit_next-rights name r (next_open s.heap r.queue) s)
  ])
]

forget-rights : (rooms : Assoc Room) (s : Server) → rights (record s { rooms = rooms }) ≡ rights s
unfolding rights
forget-rights rooms s = refl

pub delete_room_if_empty-rights :
    (name : Bytes) (s : Server) → rights (delete_room_if_empty name s) ≡ rights s
unfolding delete_room_if_empty
delete_room_if_empty-rights name s = elim (Bool-cases (bytes_eq name s.default_room)) [
  | inl d ↦ rw (d, delete_room_if_empty) refl
  | inr d ↦ elim (Option-cases (lookup name s.rooms)) [
    | inl e ↦ rw (d, e, delete_room_if_empty) refl
    | inr (r, e) ↦ elim (Bool-cases (is_empty r.clients && is_empty r.queue)) [
      | inl m ↦ rw (d, e, m, delete_room_if_empty) (forget-rights _ s)
      | inr m ↦ rw (d, e, m, delete_room_if_empty) refl
    ]
  ]
]

pub drop_member-rights :
    (c : ℕ) (name : Bytes) (s : Server) → rights (drop_member c name s) ≡ rights s
unfolding drop_member
drop_member-rights c name s = elim (Bool-cases (bytes_eq (s.heap c).room [])) [
  | inl e ↦ rw (e, drop_member) refl
  | inr e ↦ elim (Option-cases (lookup (s.heap c).room s.rooms)) [
    | inl g ↦ rw (e, g, drop_member) refl
    | inr (r, g) ↦ rw (e, g, drop_member) (put_room-rights _ _ s)
  ]
]

enter_room-rights : (c : ℕ) (room : Bytes) (s : Server) → rights (enter_room c room s) ≡ rights s
unfolding enter_room
enter_room-rights c room s =
    on_client-rights c (λ d. record d { room = room }) _ refl refl ∙ put_room-rights room _ s

pub join_room-rights : (c : ℕ) (room : Bytes) (s : Server) → rights (join_room c room s) ≡ rights s
unfolding join_room
join_room-rights c room s = enter_room-rights c room _ ∙ drop_member-rights c _ s
