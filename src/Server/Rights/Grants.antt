-- ===== src/Server/Rights/Grants.antt =====
-- The steps of `/kick` and `/ban` in server/commands.go, as to who is an admin.
use net_cat.Base.{
  Bytes, codes, ℕ, zero, suc, Bool, ◌≡◌, refl, ◌∙◌, ap, List, [], ◌∷◌, ◌++◌, inl, inr, Bool-cases,
  Option-cases,
}
use net_cat.Base.Assoc.{Assoc, lookup}
use net_cat.Models.{Message}
use net_cat.Client.{close, force_disconnect_reason}
use net_cat.Server.{Server, Now, on_client, send_to}
use net_cat.Server.Rooms.{
  clear_room, split_queue, remove_rooms, remove_from_all_room_queues_by_ip, is_empty, send_all,
  broadcast_all_rooms,
}
use net_cat.Server.Clients.{remove_client, drop_client}
use net_cat.Server.Moderation.{add_kick_cooldown, add_ban_ip}
use net_cat.Server.Commands.Moderate.{
  moderation_event, expel, kick_client, ban_collateral, close_all, admit_times, admit_opened,
  ban_client, record_in_rooms,
}
use net_cat.Server.Rights.{Rights, rights}
use net_cat.Server.Rights.Keep.{
  on_client-rights, send_to-rights, record_room_event-rights, broadcast_room-rights,
  send_positions-rights, admit_from_room_queue-rights, drop_member-rights, put_room-rights,
}

-- Who is an admin.
unfoldable pub admins_at : Server → ℕ → Bool
admins_at s i = (s.heap i).admin

pub of_rights : (s t : Server) → rights t ≡ rights s → admins_at t ≡ admins_at s
unfolding rights admins_at
of_rights s t e = ap (λ (x : Rights). x.admin_at) e

pub close-rights : (c : ℕ) (s : Server) → rights (on_client c close s) ≡ rights s
close-rights c s = unfold close in on_client-rights c close s refl refl

drop_client-rights : (name : Bytes) (s : Server) → rights (drop_client name s) ≡ rights s
unfolding drop_client rights
drop_client-rights name s = refl

pub remove_client-rights : (name : Bytes) (s : Server) → rights (remove_client name s) ≡ rights s
unfolding remove_client
remove_client-rights name s = elim (Option-cases (lookup name s.clients)) [
  | inl e ↦ rw (e, remove_client) refl
  | inr (c, e) ↦ rw (e, remove_client) (drop_client-rights name _ ∙ drop_member-rights c name s)
]

-- Taking a client off changes nobody's rights.
expel-rights :
    (now : Now) (admin action name : Bytes) (target : ℕ) (s : Server)
    → rights (expel now admin action name target s) ≡ rights s
unfolding expel moderation_event
expel-rights now admin action name target s =
    close-rights target _
    ∙ send_to-rights target _ _
    ∙ broadcast_room-rights _ _ _ _
    ∙ record_room_event-rights _ _ _
    ∙ remove_client-rights name _
    ∙ unfold force_disconnect_reason in
      on_client-rights target (force_disconnect_reason action) s refl refl

ban_collateral-rights :
    (now : Now) (admin : Bytes) (ccs : List ℕ) (opened : Assoc ℕ) (s : Server)
    → rights (ban_collateral now admin ccs opened s).1 ≡ rights s
unfolding ban_collateral
ban_collateral-rights now admin [] opened s = refl
ban_collateral-rights now admin (cc ∷ ccs) opened s =
    ban_collateral-rights now admin ccs _ _
    ∙ expel-rights now admin (codes "banned") (s.heap cc).username cc s

close_all-rights : (msg : Bytes) (cs : List ℕ) (s : Server) → rights (close_all msg cs s) ≡ rights s
unfolding close_all
close_all-rights msg [] s = refl
close_all-rights msg (c ∷ cs) s =
    close_all-rights msg cs _ ∙ close-rights c (send_to c msg s) ∙ send_to-rights c msg s

admit_times-rights : (n : ℕ) (room : Bytes) (s : Server) → rights (admit_times n room s) ≡ rights s
unfolding admit_times
admit_times-rights zero room s = refl
admit_times-rights (suc n) room s =
    admit_times-rights n room _ ∙ admit_from_room_queue-rights room s

admit_opened-rights : (opened : Assoc ℕ) (s : Server) → rights (admit_opened opened s) ≡ rights s
unfolding admit_opened
admit_opened-rights [] s = refl
admit_opened-rights ((room, n) ∷ opened) s =
    admit_opened-rights opened _ ∙ admit_times-rights n room s

clear_room-rights :
    (host name : Bytes) (removed : List ℕ) (s : Server)
    → rights (clear_room host name removed s).1 ≡ rights s
unfolding clear_room
clear_room-rights host name removed s = elim (Option-cases (lookup name s.rooms)) [
  | inl e ↦ rw (e, clear_room) refl
  | inr (r, e) ↦
      let parts = split_queue host s.heap r.queue in
      elim (Bool-cases (is_empty (removed ++ parts.0))) [
        | inl m ↦ rw (e, clear_room, m) refl
        | inr m ↦
            rw (e, clear_room, m) (send_positions-rights 0 parts.1 _ ∙ put_room-rights name _ s)
      ]
]

remove_rooms-rights :
    (host : Bytes) (names : List Bytes) (removed : List ℕ) (s : Server)
    → rights (remove_rooms host names removed s).1 ≡ rights s
unfolding remove_rooms
remove_rooms-rights host [] removed s = refl
remove_rooms-rights host (name ∷ names) removed s =
    let round = clear_room host name removed s in
    remove_rooms-rights host names round.0 round.1 ∙ clear_room-rights host name removed s

remove_queued-rights :
    (ip : Bytes) (s : Server) → rights (remove_from_all_room_queues_by_ip ip s).1 ≡ rights s
unfolding remove_from_all_room_queues_by_ip
remove_queued-rights ip s = remove_rooms-rights _ _ [] s

send_all-rights : (msg : Bytes) (m : Assoc ℕ) (s : Server) → rights (send_all msg m s) ≡ rights s
unfolding send_all
send_all-rights msg [] s = refl
send_all-rights msg ((name, c) ∷ m) s =
    send_all-rights msg m (send_to c msg s) ∙ send_to-rights c msg s

pub broadcast_all_rooms-rights :
    (msg : Bytes) (s : Server) → rights (broadcast_all_rooms msg s) ≡ rights s
unfolding broadcast_all_rooms
broadcast_all_rooms-rights msg s = send_all-rights msg s.clients s

pub record_in_rooms-rights :
    (rooms : List Bytes) (msg : Message) (s : Server)
    → rights (record_in_rooms rooms msg s) ≡ rights s
unfolding record_in_rooms
record_in_rooms-rights [] msg s = refl
record_in_rooms-rights (room ∷ rooms) msg s =
    record_in_rooms-rights rooms msg _ ∙ record_room_event-rights room msg s

-- Each of the admins' steps changes what it is for and no admin flag.
add_kick_cooldown-admins :
    (now : Now) (ip : Bytes) (s : Server) → admins_at (add_kick_cooldown now ip s) ≡ admins_at s
unfolding add_kick_cooldown admins_at
add_kick_cooldown-admins now ip s = refl

add_ban_ip-admins : (ip : Bytes) (s : Server) → admins_at (add_ban_ip ip s) ≡ admins_at s
unfolding add_ban_ip admins_at
add_ban_ip-admins ip s = refl

pub kick_client-admins :
    (now : Now) (admin name : Bytes) (target : ℕ) (s : Server)
    → admins_at (kick_client now admin name target s) ≡ admins_at s
unfolding kick_client
kick_client-admins now admin name target s =
    of_rights _ _ (admit_from_room_queue-rights _ _)
    ∙ add_kick_cooldown-admins now _ _
    ∙ of_rights s _ (expel-rights now admin (codes "kicked") name target s)

pub ban_client-admins :
    (now : Now) (admin exclude name : Bytes) (target : ℕ) (s : Server)
    → admins_at (ban_client now admin exclude name target s) ≡ admins_at s
unfolding ban_client
ban_client-admins now admin exclude name target s =
    of_rights _ _ (
      admit_opened-rights _ _
      ∙ close_all-rights _ _ _
      ∙ remove_queued-rights (s.heap target).ip _
      ∙ ban_collateral-rights now admin _ _ _)
    ∙ add_ban_ip-admins _ _
    ∙ of_rights s _ (expel-rights now admin (codes "banned") name target s)
