-- ===== src/Server/Session/Steps.antt =====
-- server/handler.go: the session of a client that has joined, its end, and the steps of a
-- connection in each phase.
use net_cat.Base.{
  Bytes, codes, bytes_eq, is_member, ℕ, Bool, true, false, ◌||◌, [], ◌++◌, if◌then◌else◌,
}
use net_cat.Models.{Message, server_event}
use net_cat.Client.{
  close, set_last_input, set_echo_mode, set_disconnect_reason, get_disconnect_reason,
}
use net_cat.Server.{Server, Now, on_client, prompt_to, log_to, is_shutting_down}
use net_cat.Server.Rooms.{
  join_room, admit_from_room_queue, delete_room_if_empty, remove_from_room_queue,
}
use net_cat.Server.Clients.{remove_client, untrack_client}
use net_cat.Server.Commands.Travel.{announce_leave, announce_join, send_history}
use net_cat.Server.Commands.Dispatch.{serve_line}
use net_cat.Server.Session.{
  Phase, naming, choosing, chatting, gone, answering, waiting, joining, ReadError, eof, other,
  register_client_name, abandon, read_room_choice, answer_queue,
}

unfoldable pub prepare_client_session : Now → ℕ → Server → Server
prepare_client_session now c s =
    let room = (s.heap c).room in
    let greeted = prompt_to now c (on_client c (set_echo_mode true) (send_history c room s)) in
    on_client c (set_last_input now.instant) (announce_join now room (s.heap c).username greeted)

-- `JoinRoom` and what follows, up to the first read of the session.
unfoldable pub enter_session : Now → ℕ → Bytes → Server → Phase × Server
enter_session now c room s = (chatting, prepare_client_session now c (join_room c room s))

-- The reason that the leave message gives.
leave_word : Bytes → Bytes
leave_word reason = if bytes_eq reason [] then codes "voluntary" else reason

unfoldable pub cleanup_connection : Now → ℕ → Server → Server
unfolding leave_word
cleanup_connection now c s =
    let username = (s.heap c).username in
    let room = (s.heap c).room in
    let reason = get_disconnect_reason (s.heap c) in
    let left =
      (if bytes_eq reason (codes "kicked") || bytes_eq reason (codes "banned")
        then s
        else announce_leave now room username (leave_word reason) (remove_client username s)) in
    on_client c close (delete_room_if_empty room (admit_from_room_queue room left))

unfoldable pub end_session : Now → ℕ → Server → Phase × Server
end_session now c s = (gone, untrack_client c (cleanup_connection now c s))

unfoldable pub after_line : Now → ℕ → Bool × Server → Phase × Server
after_line now c (true, s) = end_session now c s
after_line now c (false, s) = (chatting, s)

error_event : Now → Bytes → Message
error_event now text = record {
  timestamp = now.local;
  sender = [];
  content = text;
  type = server_event;
  extra = [];
  room = [];
}

-- A line that the connection reads.
unfoldable pub on_line : Now → ℕ → Phase → Bytes → Server → Phase × Server
unfolding after_line
on_line now c naming line s = register_client_name now c line s
on_line now c choosing line s = read_room_choice c line s
on_line now c (answering room id) line s = answer_queue c room id line s
on_line now c (waiting room id) line s = (waiting room id, s)
on_line now c (joining room) line s = (joining room, s)
on_line now c chatting line s = after_line now c (serve_line now c line s)
on_line now c gone line s = (gone, s)

unfoldable pub log_onboarding_error : Now → ℕ → ReadError → Server → Server
unfolding error_event
log_onboarding_error now c eof s = s
log_onboarding_error now c (other text) s =
    log_to (error_event now (codes "Connection error during onboarding from " ++ (s.heap c).ip)) s

unfoldable pub handle_session_read_error : Now → ℕ → ReadError → Server → Server
unfolding error_event
handle_session_read_error now c eof s = on_client c (set_disconnect_reason (codes "drop")) s
handle_session_read_error now c (other text) s =
    log_to
      (error_event now
        (codes "Connection error for " ++ ((s.heap c).username ++ (codes ": " ++ text))))
      (on_client c (set_disconnect_reason (codes "drop")) s)

-- A read that fails.
unfoldable pub on_read_error : Now → ℕ → Phase → ReadError → Server → Phase × Server
unfolding log_onboarding_error
on_read_error now c naming e s =
    (gone, untrack_client c (on_client c close (log_onboarding_error now c e s)))
on_read_error now c choosing e s = abandon c s
on_read_error now c (answering room id) e s = abandon c (remove_from_room_queue room id s)
on_read_error now c (waiting room id) e s = abandon c (remove_from_room_queue room id s)
on_read_error now c (joining room) e s = (joining room, s)
on_read_error now c chatting e s = end_session now c (handle_session_read_error now c e s)
on_read_error now c gone e s = (gone, s)

-- The two channels, besides a read that fails, on which `waitForRoomAdmission` selects.
pub data Signal : Type 0 where
  admit_opened quit_closed : Signal

-- The branch that the select takes: only one whose channel is closed can be taken, and either one
-- where both are.
unfoldable pub select_signal : ℕ → Signal → Bytes → ℕ → Server → Phase × Server
select_signal c admit_opened room id s =
    if is_member id s.admitted then (joining room, s) else (waiting room id, s)
select_signal c quit_closed room id s =
    if is_shutting_down s
    then abandon c (remove_from_room_queue room id s)
    else (waiting room id, s)

unfoldable pub on_signal : ℕ → Signal → Phase → Server → Phase × Server
on_signal c signal (waiting room id) s = select_signal c signal room id s
on_signal c signal naming s = (naming, s)
on_signal c signal choosing s = (choosing, s)
on_signal c signal chatting s = (chatting, s)
on_signal c signal gone s = (gone, s)
on_signal c signal (answering room id) s = (answering room id, s)
on_signal c signal (joining room) s = (joining room, s)

-- The step out of the gap.
unfoldable pub on_join : Now → ℕ → Phase → Server → Phase × Server
on_join now c (joining room) s = enter_session now c room s
on_join now c naming s = (naming, s)
on_join now c choosing s = (choosing, s)
on_join now c chatting s = (chatting, s)
on_join now c gone s = (gone, s)
on_join now c (answering room id) s = (answering room id, s)
on_join now c (waiting room id) s = (waiting room id, s)
