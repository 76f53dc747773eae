-- ===== src/Server/Course/Steps.antt =====
-- The course of the steps of a connection, server/handler.go.
use net_cat.Base.{
  subst, ◌≢◌, bytes_eq_iff, ◌≡◌, codes, bytes_eq, Bytes, is_member, ℕ, Bool, true, false, refl, [],
  List, inl, inr, Bool-cases, arith,
}
use net_cat.Client.{Client, set_echo_mode, set_last_input, set_disconnect_reason}
use net_cat.Server.{Server, Now, on_client, is_shutting_down}
use net_cat.Server.Session.{
  Phase, naming, choosing, chatting, gone, answering, waiting, joining, ReadError, eof, other,
  register_client_name,
}
use net_cat.Server.Session.Steps.{
  prepare_client_session, enter_session, cleanup_connection, end_session, after_line, on_line,
  log_onboarding_error, handle_session_read_error, on_read_error, Signal, admit_opened, quit_closed,
  select_signal, on_signal, on_join,
}
use net_cat.Server.Course.{is_expelled, view, After, same, ◌⨾◌, either}
use net_cat.Server.Course.Keep.{on_client-After, log_to-After, prompt_to-After}
use net_cat.Server.Course.Rooms.{join_room-After}
use net_cat.Server.Course.Queues.{admit_from_room_queue-After}
use net_cat.Server.Course.Removal.{delete_room_if_empty-After}
use net_cat.Server.Course.Travel.{announce_leave-After, announce_join-After, send_history-After}
use net_cat.Server.Course.Moderate.{close-After, remove_client-After}
use net_cat.Server.Course.Lines.{serve_line-After}
use net_cat.Server.Course.Sessions.{IsNumbered, Holds, Fares}
use net_cat.Server.Course.Onboard.{
  untrack_client-After, abandon-Fares, leave_queue-Fares, name_checked-Fares,
  read_room_choice-Fares, answer_queue-Fares,
}

pub prepare_client_session-After :
    (now : Now) (c : ℕ) (s : Server) → After [] (prepare_client_session now c s) s
unfolding prepare_client_session set_last_input set_echo_mode
prepare_client_session-After now c s =
    on_client-After c (set_last_input now.instant) _ (λ h. h) (λ h. h) refl
    ⨾ announce_join-After [] now _ _ _
    ⨾ prompt_to-After now c _
    ⨾ on_client-After c (set_echo_mode true) _ (λ h. h) (λ h. h) refl
    ⨾ send_history-After [] c _ s

enter_session-Fares :
    (now : Now) (c : ℕ) (room : Bytes) (s : Server) → Fares c s (enter_session now c room s)
unfolding enter_session
enter_session-Fares now c room s =
    (prepare_client_session-After now c _ ⨾ join_room-After c room s, tt)

cleanup_connection-After :
    (now : Now) (c : ℕ) (s : Server) → After [] (cleanup_connection now c s) s
unfolding cleanup_connection
cleanup_connection-After now c s =
    close-After [] c _
    ⨾ delete_room_if_empty-After _ _
    ⨾ admit_from_room_queue-After _ _
    ⨾ either _ same (announce_leave-After [] now _ _ _ _ ⨾ remove_client-After [] _ s)

end_session-Fares : (now : Now) (c : ℕ) (s : Server) → Fares c s (end_session now c s)
unfolding end_session
end_session-Fares now c s = (untrack_client-After c _ ⨾ cleanup_connection-After now c s, tt)

after_line-Fares :
    (now : Now) (c : ℕ) (r : Bool × Server) (s : Server)
    → After [] r.1 s
    → Fares c s (after_line now c r)
unfolding after_line
after_line-Fares now c (true, t) s h = ((end_session-Fares now c t).0 ⨾ h, unfold end_session in tt)
after_line-Fares now c (false, t) s h = (h, tt)

pub on_line-Fares :
    (now : Now) (c : ℕ) (p : Phase) (line : Bytes) (s : Server)
    → IsNumbered (view s)
    → Holds p c (view s)
    → Fares c s (on_line now c p line s)
unfolding on_line register_client_name
on_line-Fares now c naming line s n h = name_checked-Fares now c line _ s
on_line-Fares now c choosing line s n h = read_room_choice-Fares c line s n
on_line-Fares now c chatting line s n h = after_line-Fares now c _ s (serve_line-After now c line s)
on_line-Fares now c gone line s n h = (same, tt)
on_line-Fares now c (answering room id) line s n h = answer_queue-Fares c room id line s h
on_line-Fares now c (waiting room id) line s n h = (same, h)
on_line-Fares now c (joining room) line s n h = (same, tt)

log_onboarding_error-After :
    (now : Now) (c : ℕ) (e : ReadError) (s : Server) → After [] (log_onboarding_error now c e s) s
unfolding log_onboarding_error
log_onboarding_error-After now c eof s = same
log_onboarding_error-After now c (other text) s = log_to-After _ s

nothing-expelled : is_expelled [] ≢ true
unfolding codes bytes_eq
nothing-expelled h = cc

-- A reason that is set stays, so one that tells of an expulsion does.
first_stays :
    (reason : Bytes) (d : Client)
    → is_expelled d.disconnect_reason ≡ true
    → is_expelled (set_disconnect_reason reason d).disconnect_reason ≡ true
unfolding set_disconnect_reason
first_stays reason d h = elim (Bool-cases (bytes_eq d.disconnect_reason [])) [
  | inl e ↦ absurd (
      nothing-expelled
        (subst (λ (x : Bytes). is_expelled x ≡ true) ((bytes_eq_iff d.disconnect_reason []).0 e) h))
  | inr e ↦ rw e h
]

pub set_disconnect_reason-After :
    {leaving : List ℕ} (c : ℕ) (reason : Bytes) (s : Server)
    → After leaving (on_client c (set_disconnect_reason reason) s) s
unfolding set_disconnect_reason
set_disconnect_reason-After c reason s =
    on_client-After c (set_disconnect_reason reason) s (λ h. ground arith)
      (λ h. first_stays reason (s.heap c) h) (ground arith)

pub handle_session_read_error-After :
    (now : Now) (c : ℕ) (e : ReadError) (s : Server)
    → After [] (handle_session_read_error now c e s) s
unfolding handle_session_read_error
handle_session_read_error-After now c eof s = set_disconnect_reason-After c _ s
handle_session_read_error-After now c (other text) s =
    log_to-After _ _ ⨾ set_disconnect_reason-After c _ s

pub on_read_error-Fares :
    (now : Now) (c : ℕ) (p : Phase) (e : ReadError) (s : Server)
    → Holds p c (view s)
    → Fares c s (on_read_error now c p e s)
unfolding on_read_error
on_read_error-Fares now c naming e s h =
    (untrack_client-After c _ ⨾ close-After [] c _ ⨾ log_onboarding_error-After now c e s, tt)
on_read_error-Fares now c choosing e s h = abandon-Fares c s
on_read_error-Fares now c chatting e s h = (
  (end_session-Fares now c _).0 ⨾ handle_session_read_error-After now c e s,
  unfold end_session in tt,
)
on_read_error-Fares now c gone e s h = (same, tt)
on_read_error-Fares now c (answering room id) e s h = leave_queue-Fares room id c s h
on_read_error-Fares now c (waiting room id) e s h = leave_queue-Fares room id c s h
on_read_error-Fares now c (joining room) e s h = (same, tt)

select_signal-Fares :
    (c : ℕ) (signal : Signal) (room : Bytes) (id : ℕ) (s : Server)
    → Holds (waiting room id) c (view s)
    → Fares c s (select_signal c signal room id s)
unfolding select_signal
select_signal-Fares c admit_opened room id s h = elim (Bool-cases (is_member id s.admitted)) [
  | inl a ↦ rw (a, select_signal) (same, tt)
  | inr a ↦ rw (a, select_signal) (same, h)
]
select_signal-Fares c quit_closed room id s h = elim (Bool-cases (is_shutting_down s)) [
  | inl q ↦ rw (q, select_signal) (leave_queue-Fares room id c s h)
  | inr q ↦ rw (q, select_signal) (same, h)
]

pub on_signal-Fares :
    (c : ℕ) (signal : Signal) (p : Phase) (s : Server)
    → Holds p c (view s)
    → Fares c s (on_signal c signal p s)
unfolding on_signal
on_signal-Fares c signal naming s h = (same, tt)
on_signal-Fares c signal choosing s h = (same, tt)
on_signal-Fares c signal chatting s h = (same, tt)
on_signal-Fares c signal gone s h = (same, tt)
on_signal-Fares c signal (answering room id) s h = (same, h)
on_signal-Fares c signal (joining room) s h = (same, tt)
on_signal-Fares c signal (waiting room id) s h = select_signal-Fares c signal room id s h

pub on_join-Fares :
    (now : Now) (c : ℕ) (p : Phase) (s : Server)
    → Holds p c (view s)
    → Fares c s (on_join now c p s)
unfolding on_join
on_join-Fares now c naming s h = (same, tt)
on_join-Fares now c choosing s h = (same, tt)
on_join-Fares now c chatting s h = (same, tt)
on_join-Fares now c gone s h = (same, tt)
on_join-Fares now c (answering room id) s h = (same, h)
on_join-Fares now c (waiting room id) s h = (same, h)
on_join-Fares now c (joining room) s h = enter_session-Fares now c room s
