-- ===== src/Server/Course/Events.antt =====
-- The course of new connections, heartbeats, midnight, the start and the shutdown, server/server.go.
use net_cat.Base.{
  Bytes, bytes_eq, ◌+◌, ◌==◌, ==_iff, ℕ, true, ltb, ◌≡◌, refl, sym, subst, List, [], ◌∷◌, Option,
  none, some, inl, inr, Bool-cases, Option-cases, append-nil, arith,
}
use net_cat.Base.Assoc.{Assoc, lookup}
use net_cat.Base.Heap.{update}
use net_cat.Client.{Client, new_client, close, is_closed, get_last_input}
use net_cat.Server.{Server, Room, Now, is_set, is_shutting_down}
use net_cat.Server.Names.{extract_host}
use net_cat.Server.Clients.{track_client}
use net_cat.Server.Moderation.{is_ip_blocked}
use net_cat.Server.History.{clear_rooms, clear_history}
use net_cat.Server.Session.{
  write_and_close, reject_shutdown, reject_blocked, reject_connection, open_connection,
}
use net_cat.Server.Heartbeat.{
  Probe, written, failed, timed_out, client_done, server_quit, Event, tick, done, quit, write_probe,
  drop_connection, after_probe, on_tick, heartbeat_round,
}
use net_cat.Server.Listener.{accept_connection, Wake, midnight, watch_round}
use net_cat.Server.Shutdown.{
  send_tracked, begin_shutdown, close_tracked, close_log, finish_shutdown,
}
use net_cat.Server.Course.{is_expelled, queue_in, In, IsThere, After, same, unseen, ◌⨾◌, either}
use net_cat.Server.Course.Keep.{reheaped, on_client-After, log_to-After, send_to-After}
use net_cat.Server.Course.Moderate.{close-After}
use net_cat.Server.Course.Sessions.{Fares}
use net_cat.Server.Course.Onboard.{untrack_client-After}
use net_cat.Server.Course.Steps.{set_disconnect_reason-After}

is_ip_blocked-After : (now : Now) (ip : Bytes) (s : Server) → After [] (is_ip_blocked now ip s).1 s
unfolding is_ip_blocked
is_ip_blocked-After now ip s = elim (Bool-cases (is_set (extract_host ip) s.banned_ips)) [
  | inl b ↦ rw (b, is_ip_blocked) same
  | inr b ↦ elim (Option-cases (lookup (extract_host ip) s.kicked_ips)) [
    | inl e ↦ rw (b, e, is_ip_blocked) same
    | inr (expiry, e) ↦ elim (Bool-cases (ltb now.instant expiry)) [
      | inl l ↦ rw (b, e, l, is_ip_blocked) same
      | inr l ↦ rw (b, e, l, is_ip_blocked) (unseen refl)
    ]
  ]
]

write_and_close-After : (c : ℕ) (text : Bytes) (s : Server) → After [] (write_and_close c text s) s
unfolding write_and_close close
write_and_close-After c text s = on_client-After c _ s (λ h. refl) (λ h. h) refl

reject_shutdown-After : (c : ℕ) (s : Server) → After [] (reject_shutdown c s).1 s
unfolding reject_shutdown
reject_shutdown-After c s = elim (Bool-cases (is_shutting_down s)) [
  | inl q ↦ rw (q, reject_shutdown) (write_and_close-After c _ s)
  | inr q ↦ rw (q, reject_shutdown) same
]

reject_blocked-After :
    (c : ℕ) (o : Option Bytes) (s : Server) → After [] (reject_blocked c (o, s)).1 s
unfolding reject_blocked
reject_blocked-After c (some reason) s = write_and_close-After c reason s
reject_blocked-After c none s = reject_shutdown-After c s

reject_connection-After :
    (now : Now) (c : ℕ) (s : Server) → After [] (reject_connection now c s).1 s
unfolding reject_connection
reject_connection-After now c s =
    reject_blocked-After c _ _ ⨾ is_ip_blocked-After now (s.heap c).ip s

track_client-After : (c : ℕ) (s : Server) → After [] (track_client c s) s
unfolding track_client
track_client-After c s = unseen refl

open_connection-Fares : (now : Now) (c : ℕ) (s : Server) → Fares c s (open_connection now c s)
unfolding open_connection
open_connection-Fares now c s =
    let (rejected, t) = reject_connection now c (track_client c s) in
    let opened = reject_connection-After now c (track_client c s) ⨾ track_client-After c s in
    elim (Bool-cases rejected) [
      | inl e ↦ rw (e, open_connection) (untrack_client-After c t ⨾ opened, tt)
      | inr e ↦ rw (e, open_connection) (send_to-After c _ t ⨾ opened, tt)
    ]

-- A new connection's client is as `NewClient` makes it.
pub accept_connection-Fares :
    (now : Now) (c : ℕ) (ip : Bytes) (s : Server)
    → s.heap c ≡ new_client ip
    → Fares c s (accept_connection now c ip s)
unfolding accept_connection
accept_connection-Fares now c ip s e =
    let (later, holds) =
      open_connection-Fares now c (record s { heap = update s.heap c (new_client ip) }) in
    (
      later ⨾ record {
        course = reheaped _ _ (λ i h. same_done i h) (λ i h. same_reason i h) (λ i. same_ip i);
      },
      holds,
    )
  where
    same_done : (i : ℕ) → (s.heap i).done ≡ true → (update s.heap c (new_client ip) i).done ≡ true
    same_done i h = ground (arith, ==_iff c i)

    same_reason :
        (i : ℕ)
        → is_expelled (s.heap i).disconnect_reason ≡ true
        → is_expelled (update s.heap c (new_client ip) i).disconnect_reason ≡ true
    same_reason i h = elim (Bool-cases (c == i)) [
      | inl t ↦ rw t (
          subst (λ (d : Client). is_expelled d.disconnect_reason ≡ true)
            (subst (λ (x : ℕ). s.heap x ≡ new_client ip) ((==_iff c i).0 t) e) h)
      | inr t ↦ rw t h
    ]

    same_ip : (i : ℕ) → (update s.heap c (new_client ip) i).ip ≡ (s.heap i).ip
    same_ip i = ground (arith, ==_iff c i)

drop_connection-After : (c : ℕ) (s : Server) → After [] (drop_connection c s) s
unfolding drop_connection
drop_connection-After c s = close-After [] c _ ⨾ set_disconnect_reason-After c _ s

after_probe-After :
    (timeout c : ℕ) (probe : Probe) (s : Server) → After [] (after_probe timeout c probe s).1 s
unfolding after_probe write_probe
after_probe-After timeout c (written elapsed) s =
    let probed = on_client-After {leaving = []} c write_probe s (λ h. h) (λ h. h) refl in
    either _ (send_to-After c _ _ ⨾ probed) probed
after_probe-After timeout c failed s = drop_connection-After c s
after_probe-After timeout c timed_out s = drop_connection-After c s
after_probe-After timeout c client_done s = same
after_probe-After timeout c server_quit s = same

on_tick-After :
    (interval timeout c instant : ℕ) (probe : Probe) (s : Server)
    → After [] (on_tick interval timeout c instant probe s).1 s
unfolding on_tick
on_tick-After interval timeout c instant probe s = elim (Bool-cases (is_closed (s.heap c))) [
  | inl e ↦ rw (e, on_tick) same
  | inr e ↦ elim (Bool-cases (ltb instant (get_last_input (s.heap c) + interval))) [
    | inl r ↦ rw (e, r, on_tick) same
    | inr r ↦ rw (e, r, on_tick) (after_probe-After timeout c probe s)
  ]
]

pub heartbeat_round-After :
    (interval timeout c : ℕ) (event : Event) (s : Server)
    → After [] (heartbeat_round interval timeout c event s).1 s
unfolding heartbeat_round
heartbeat_round-After interval timeout c (tick instant probe) s =
    on_tick-After _ _ c instant probe s
heartbeat_round-After interval timeout c done s = same
heartbeat_round-After interval timeout c quit s = same

send_tracked-After : (msg : Bytes) (cs : List ℕ) (s : Server) → After [] (send_tracked msg cs s) s
unfolding send_tracked
send_tracked-After msg [] s = same
send_tracked-After msg (c ∷ cs) s = send_tracked-After msg cs _ ⨾ send_to-After c msg s

quitting : (s : Server) → After [] (record s { quit = true }) s
quitting s = record {
  course = record {
    quits = λ h. refl;
    same_default = refl;
    has_default = λ h. h;
    closed = λ i h. h;
    expelled = λ i h. h;
    address = λ i. refl;
    admits = λ id h. h;
    counts = omega arith;
    logs = λ path. ([], sym (append-nil _));
    stays = λ room e h. inl h;
    comes = λ room e h. inl h;
  };
}

pub begin_shutdown-After : (s : Server) → After [] (begin_shutdown s) s
unfolding begin_shutdown
begin_shutdown-After s = send_tracked-After _ _ _ ⨾ quitting s

close_tracked-After : (cs : List ℕ) (s : Server) → After [] (close_tracked cs s) s
unfolding close_tracked
close_tracked-After [] s = same
close_tracked-After (c ∷ cs) s = close_tracked-After cs _ ⨾ close-After [] c s

close_log-After : (s : Server) → After [] (close_log s) s
unfolding close_log
close_log-After s = elim (Option-cases s.logger) [
  | inl e ↦ rw (e, close_log) (unseen refl)
  | inr (l, e) ↦ rw (e, close_log) (unseen refl)
]

pub finish_shutdown-After : (now : Now) (s : Server) → After [] (finish_shutdown now s) s
unfolding finish_shutdown
finish_shutdown-After now s = close_log-After _ ⨾ log_to-After _ _ ⨾ close_tracked-After _ s

clear_rooms-queue :
    (room : Bytes) (m : Assoc Room)
    → queue_in (lookup room (clear_rooms m)) ≡ queue_in (lookup room m)
unfolding clear_rooms lookup
clear_rooms-queue room [] = refl
clear_rooms-queue room ((name, r) ∷ m) = ground (arith, clear_rooms-queue room m)

clear_rooms-IsThere :
    (room : Bytes) (m : Assoc Room)
    → IsThere (lookup room m)
    → IsThere (lookup room (clear_rooms m))
unfolding clear_rooms lookup
clear_rooms-IsThere room [] h = h
clear_rooms-IsThere room ((name, r) ∷ m) h = elim (Bool-cases (bytes_eq name room)) [
  | inl e ↦ rw e tt
  | inr e ↦ rw e (clear_rooms-IsThere room m (rw e at h))
]

pub watch_round-After : (wake : Wake) (s : Server) → After [] (watch_round wake s).1 s
unfolding watch_round clear_history
watch_round-After midnight s = record {
  course = record {
    quits = λ h. h;
    same_default = refl;
    has_default = clear_rooms-IsThere s.default_room s.rooms;
    closed = λ i h. h;
    expelled = λ i h. h;
    address = λ i. refl;
    admits = λ id h. h;
    counts = omega arith;
    logs = λ path. ([], sym (append-nil _));
    stays = λ room e h. inl (subst (In e) (sym (clear_rooms-queue room s.rooms)) h);
    comes = λ room e h. inl (subst (In e) (clear_rooms-queue room s.rooms) h);
  };
}
watch_round-After Wake.quit s = same
