-- ===== src/Server/Commands/Capacity.antt =====
-- `/switch` and `/create` of server/commands.go, as to the number of members of a room.
use net_cat.Base.{
  Bytes, codes, bytes_eq, ℕ, suc, ◌≤◌, ◌≡◌, refl, sym, subst, ◌∙◌, List, [], ◌∷◌, if◌then◌else◌,
  arith,
}
use net_cat.Server.{Server, Now, send_to, prompt_to}
use net_cat.Server.Rooms.{
  join_room, get_room_client_count, admit_from_room_queue, delete_room_if_empty,
}
use net_cat.Server.Rooms.History.{send_to-rooms, prompt_to-rooms, broadcast_room-rooms}
use net_cat.Server.Rooms.Capacity.{
  same_count, record_room_event-count, admit_from_room_queue-count, delete_room_if_empty-count,
  join_room-count,
}
use net_cat.Server.Commands.{reply}
use net_cat.Server.Commands.Chat.{reply-rooms}
use net_cat.Server.Commands.Inform.{send_lines}
use net_cat.Server.Commands.Travel.{announce_leave, announce_join, send_history, switch_client_room}

pub send_to-count :
    (k : Bytes) (c : ℕ) (msg : Bytes) (s : Server)
    → get_room_client_count k (send_to c msg s) ≡ get_room_client_count k s
send_to-count k c msg s = same_count k s (send_to c msg s) (send_to-rooms c msg s)

pub prompt_to-count :
    (k : Bytes) (now : Now) (c : ℕ) (s : Server)
    → get_room_client_count k (prompt_to now c s) ≡ get_room_client_count k s
prompt_to-count k now c s = same_count k s (prompt_to now c s) (prompt_to-rooms now c s)

pub reply-count :
    (k : Bytes) (now : Now) (c : ℕ) (msg : Bytes) (s : Server)
    → get_room_client_count k (reply now c msg s) ≡ get_room_client_count k s
reply-count k now c msg s = same_count k s (reply now c msg s) (reply-rooms now c msg s)

pub announce_leave-count :
    (k : Bytes) (now : Now) (room username reason : Bytes) (s : Server)
    → get_room_client_count k (announce_leave now room username reason s)
      ≡ get_room_client_count k s
unfolding announce_leave
announce_leave-count k now room username reason s =
    same_count k _ _ (broadcast_room-rooms room _ _ _) ∙ record_room_event-count k room _ s

pub announce_join-count :
    (k : Bytes) (now : Now) (room username : Bytes) (s : Server)
    → get_room_client_count k (announce_join now room username s) ≡ get_room_client_count k s
unfolding announce_join
announce_join-count k now room username s =
    same_count k _ _ (broadcast_room-rooms room _ _ _) ∙ record_room_event-count k room _ s

send_lines-rooms : (c : ℕ) (ls : List Bytes) (s : Server) → (send_lines c ls s).rooms ≡ s.rooms
unfolding send_lines
send_lines-rooms c [] s = refl
send_lines-rooms c (l ∷ ls) s = send_lines-rooms c ls (send_to c l s) ∙ send_to-rooms c l s

pub send_history-count :
    (k : Bytes) (c : ℕ) (room : Bytes) (s : Server)
    → get_room_client_count k (send_history c room s) ≡ get_room_client_count k s
unfolding send_history
send_history-count k c room s = same_count k s _ (send_lines-rooms c _ s)

pub switch_client_room-count :
    (k : Bytes) (now : Now) (c : ℕ) (room : Bytes) (s : Server)
    → get_room_client_count k (switch_client_room now c room s)
      ≤ (if bytes_eq room k then suc (get_room_client_count k s) else get_room_client_count k s)
unfolding switch_client_room
switch_client_room-count k now c room s =
    let old_room = (s.heap c).room in
    let left = announce_leave now old_room (s.heap c).username (codes "switched") s in
    let moved = join_room c room left in
    let admitted = admit_from_room_queue old_room moved in
    let tidied = delete_room_if_empty old_room admitted in
    subst
      (λ n.
        n
        ≤ (if bytes_eq room k then suc (get_room_client_count k s) else get_room_client_count k s))
      (sym (
        send_to-count k c _ _
        ∙ announce_join-count k now room (s.heap c).username _
        ∙ send_history-count k c room tidied))
      (ground (
        arith,
        delete_room_if_empty-count k old_room admitted,
        admit_from_room_queue-count k old_room moved,
        join_room-count k c room left,
        announce_leave-count k now old_room (s.heap c).username (codes "switched") s,
      ))
