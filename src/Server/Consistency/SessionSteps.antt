-- ===== src/Server/Consistency/SessionSteps.antt =====
-- The session of a client and its end, server/handler.go, as to the indexes.
use net_cat.Base.{Bytes, codes, ℕ, Bool, true, false, ◌≡◌, refl, ◌∙◌, inl, inr, Bool-cases, arith}
use net_cat.Client.{Client, close, set_echo_mode, set_disconnect_reason}
use net_cat.Server.{Server, Now, on_client}
use net_cat.Server.Rooms.{admit_from_room_queue, delete_room_if_empty}
use net_cat.Server.Clients.{remove_client, untrack_client}
use net_cat.Server.Session.{
  Phase, naming, choosing, chatting, gone, answering, waiting, joining, register_client_name,
  ReadError, eof, other,
}
use net_cat.Server.Session.Steps.{
  prepare_client_session, enter_session, cleanup_connection, end_session, after_line, on_line,
  log_onboarding_error, handle_session_read_error, on_read_error, on_join,
}
use net_cat.Server.Index.{index, IsConsistent}
use net_cat.Server.Index.Keep.{
  on_client-index, log_to-index, prompt_to-index, delete_room_if_empty-index,
}
use net_cat.Server.Index.Keep.Queues.{admit_from_room_queue-index, remove_from_room_queue-index}
use net_cat.Server.Course.{is_expelled}
use net_cat.Server.Consistency.{kept}
use net_cat.Server.Consistency.Travel.{
  announce_leave-index, announce_join-index, send_history-index, join_room-IsConsistent,
}
use net_cat.Server.Consistency.Moderate.{remove_client-IsConsistent, close-index}
use net_cat.Server.Consistency.Sessions.{serve_line-IsConsistent, set_last_input-index}
use net_cat.Server.Consistency.Connections.{
  name_checked-IsConsistent, abandon-IsConsistent, untrack_client-index, Fits,
  read_room_choice-IsConsistent, answer_queue-IsConsistent,
}

pub prepare_client_session-index :
    (now : Now) (c : ℕ) (s : Server) → index (prepare_client_session now c s) ≡ index s
unfolding prepare_client_session
prepare_client_session-index now c s =
    set_last_input-index now c _
    ∙ announce_join-index now _ _ _
    ∙ prompt_to-index now c _
    ∙ unfold set_echo_mode in
      on_client-index c (set_echo_mode true) _ refl refl ∙ send_history-index c _ s

enter_session-IsConsistent :
    (now : Now) (c : ℕ) (room : Bytes) (s : Server)
    → IsConsistent (index s)
    → Fits (joining room) c (index s)
    → IsConsistent (index (enter_session now c room s).1)
unfolding enter_session
enter_session-IsConsistent now c room s v (held, ne) =
    kept _ _ (prepare_client_session-index now c _)
      (join_room-IsConsistent c room s v (unfold index in held) ne)

-- What a session does at its end after its leave message, if there is one.
ended-index :
    (c : ℕ) (room : Bytes) (s : Server)
    → index (
        untrack_client c
          (on_client c close (delete_room_if_empty room (admit_from_room_queue room s))))
      ≡ index s
ended-index c room s =
    untrack_client-index c _
    ∙ close-index c _
    ∙ delete_room_if_empty-index room _
    ∙ admit_from_room_queue-index room s

-- After an expulsion the end of the session leaves the indexes as they are.
pub end_session-expelled :
    (now : Now) (c : ℕ) (s : Server)
    → is_expelled (s.heap c).disconnect_reason ≡ true
    → index (end_session now c s).1 ≡ index s
unfolding end_session cleanup_connection
end_session-expelled now c s e =
    rw (e, end_session, cleanup_connection) (ended-index c (s.heap c).room s)

-- The end of a session, whatever its reason.
end_session-IsConsistent :
    (now : Now) (c : ℕ) (s : Server)
    → IsConsistent (index s)
    → IsConsistent (index (end_session now c s).1)
unfolding end_session cleanup_connection
end_session-IsConsistent now c s v = elim (Bool-cases (is_expelled (s.heap c).disconnect_reason)) [
  | inl e ↦ kept s _ (end_session-expelled now c s e) v
  | inr e ↦
      rw (e, end_session, cleanup_connection)
        (kept (remove_client (s.heap c).username s) _
          (ended-index c (s.heap c).room _ ∙ announce_leave-index now _ _ _ _)
          (remove_client-IsConsistent (s.heap c).username s v))
]

after_line-IsConsistent :
    (now : Now) (c : ℕ) (r : Bool × Server)
    → IsConsistent (index r.1)
    → IsConsistent (index (after_line now c r).1)
unfolding after_line
after_line-IsConsistent now c (true, s) v = end_session-IsConsistent now c s v
after_line-IsConsistent now c (false, s) v = v

-- Whatever line a connection reads, in whatever phase, consistent indexes stay consistent, if the
-- client is registered, or not yet, as its phase says.
pub on_line-IsConsistent :
    (now : Now) (c : ℕ) (p : Phase) (line : Bytes) (s : Server)
    → IsConsistent (index s)
    → Fits p c (index s)
    → IsConsistent (index (on_line now c p line s).1)
unfolding on_line register_client_name
on_line-IsConsistent now c naming line s v fits = name_checked-IsConsistent now c s v line _ fits
on_line-IsConsistent now c choosing line s v fits = read_room_choice-IsConsistent c line s v
on_line-IsConsistent now c chatting line s v fits =
    after_line-IsConsistent now c _ (serve_line-IsConsistent now c line s v (unfold index in fits))
on_line-IsConsistent now c (answering room id) line s v fits =
    answer_queue-IsConsistent c room id line s v
on_line-IsConsistent now c (waiting room id) line s v fits = v
on_line-IsConsistent now c (joining room) line s v fits = v
on_line-IsConsistent now c gone line s v fits = v

log_onboarding_error-index :
    (now : Now) (c : ℕ) (e : ReadError) (s : Server)
    → index (log_onboarding_error now c e s) ≡ index s
unfolding log_onboarding_error
log_onboarding_error-index now c eof s = refl
log_onboarding_error-index now c (other text) s = log_to-index _ s

dropped :
    (c : ℕ) (s : Server) → index (on_client c (set_disconnect_reason (codes "drop")) s) ≡ index s
unfolding set_disconnect_reason
dropped c s =
    on_client-index c (set_disconnect_reason (codes "drop")) s (same_username _) (same_room _)
  where
    same_username : (d : Client) → (set_disconnect_reason (codes "drop") d).username ≡ d.username
    same_username d = ground arith

    same_room : (d : Client) → (set_disconnect_reason (codes "drop") d).room ≡ d.room
    same_room d = ground arith

pub handle_session_read_error-index :
    (now : Now) (c : ℕ) (e : ReadError) (s : Server)
    → index (handle_session_read_error now c e s) ≡ index s
unfolding handle_session_read_error
handle_session_read_error-index now c eof s = dropped c s
handle_session_read_error-index now c (other text) s = log_to-index _ _ ∙ dropped c s

-- A read that fails, in whatever phase, leaves consistent indexes consistent.
pub on_read_error-IsConsistent :
    (now : Now) (c : ℕ) (p : Phase) (e : ReadError) (s : Server)
    → IsConsistent (index s)
    → IsConsistent (index (on_read_error now c p e s).1)
unfolding on_read_error
on_read_error-IsConsistent now c naming e s v =
    kept s _ (untrack_client-index c _ ∙ close-index c _ ∙ log_onboarding_error-index now c e s) v
on_read_error-IsConsistent now c choosing e s v = abandon-IsConsistent c s v
on_read_error-IsConsistent now c (answering room id) e s v =
    abandon-IsConsistent c _ (kept s _ (remove_from_room_queue-index room id s) v)
on_read_error-IsConsistent now c (waiting room id) e s v =
    abandon-IsConsistent c _ (kept s _ (remove_from_room_queue-index room id s) v)
on_read_error-IsConsistent now c (joining room) e s v = v
on_read_error-IsConsistent now c chatting e s v =
    end_session-IsConsistent now c _ (kept s _ (handle_session_read_error-index now c e s) v)
on_read_error-IsConsistent now c gone e s v = v

-- Joining the room that was chosen leaves consistent indexes consistent, if the client is
-- registered, as its phase says.
pub on_join-IsConsistent :
    (now : Now) (c : ℕ) (p : Phase) (s : Server)
    → IsConsistent (index s)
    → Fits p c (index s)
    → IsConsistent (index (on_join now c p s).1)
unfolding on_join
on_join-IsConsistent now c (joining room) s v fits = enter_session-IsConsistent now c room s v fits
on_join-IsConsistent now c naming s v fits = v
on_join-IsConsistent now c choosing s v fits = v
on_join-IsConsistent now c chatting s v fits = v
on_join-IsConsistent now c gone s v fits = v
on_join-IsConsistent now c (answering room id) s v fits = v
on_join-IsConsistent now c (waiting room id) s v fits = v
