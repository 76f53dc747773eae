-- ===== src/Server/Shutdown/Laws.antt =====
-- New connections, admissions and room choices after a shutdown has begun.
use net_cat.Base.{Bytes, ℕ, true, ◌≡◌, refl, ◌∙◌, List, [], ◌∷◌, Option, none, some, arith}
use net_cat.Server.{Server, Now, on_client, send_to, is_shutting_down}
use net_cat.Server.Rooms.{admit_from_room_queue}
use net_cat.Server.Moderation.{is_ip_blocked}
use net_cat.Server.Session.{
  reject_connection, reject_blocked, reject_shutdown, abandon, check_or_queue_room,
}
use net_cat.Server.Shutdown.{send_tracked, begin_shutdown}

send_to-quit : (c : ℕ) (msg : Bytes) (s : Server) → (send_to c msg s).quit ≡ s.quit
unfolding send_to on_client
send_to-quit c msg s = refl

send_tracked-quit : (msg : Bytes) (cs : List ℕ) (s : Server) → (send_tracked msg cs s).quit ≡ s.quit
unfolding send_tracked
send_tracked-quit msg [] s = refl
send_tracked-quit msg (c ∷ cs) s = send_tracked-quit msg cs (send_to c msg s) ∙ send_to-quit c msg s

begin_shutdown-quit : (s : Server) → is_shutting_down (begin_shutdown s) ≡ true
unfolding begin_shutdown is_shutting_down
begin_shutdown-quit s = send_tracked-quit _ s.all_clients (record s { quit = true })

is_ip_blocked-quit :
    (now : Now) (ip : Bytes) (s : Server) → (is_ip_blocked now ip s).1.quit ≡ s.quit
unfolding is_ip_blocked
is_ip_blocked-quit now ip s = ground arith

reject_blocked-quitting :
    (c : ℕ) (r : Option Bytes × Server) → r.1.quit ≡ true → (reject_blocked c r).0 ≡ true
unfolding reject_blocked reject_shutdown is_shutting_down
reject_blocked-quitting c (some reason, s) h = refl
reject_blocked-quitting c (none, s) h = rw h refl

-- Once a shutdown has begun, every new connection is rejected, no queued client is admitted to
-- any room, and a client that chooses a room is let go.
pub begin_shutdown-stops :
    (now : Now) (c : ℕ) (room : Bytes) (s : Server)
    → (let t = begin_shutdown s in
        ((reject_connection now c t).0 ≡ true)
        × (admit_from_room_queue room t ≡ t)
        × (check_or_queue_room c room t ≡ abandon c t))
unfolding reject_connection admit_from_room_queue check_or_queue_room
begin_shutdown-stops now c room s =
    let t = begin_shutdown s in
    let q : is_shutting_down t ≡ true = begin_shutdown-quit s in
    (
      reject_blocked-quitting c (is_ip_blocked now (t.heap c).ip t)
          (is_ip_blocked-quit now (t.heap c).ip t ∙ (unfold is_shutting_down in q)),
      rw q refl,
      rw q refl,
    )
