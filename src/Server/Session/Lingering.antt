-- ===== src/Server/Session/Lingering.antt =====
-- What becomes of a client that is expelled between the choice of its room and its entry,
-- server/handler.go with the moderation of server/commands.go and server/operator.go.
use net_cat.Base.{Bytes, ℕ, true, ◌≡◌, refl, ◌∙◌, ap, [], Option, some}
use net_cat.Server.{Server, Now}
use net_cat.Server.Rooms.{join_room}
use net_cat.Server.Index.{Index, index}
use net_cat.Server.Consistency.SessionSteps.{
  prepare_client_session-index, handle_session_read_error-index, end_session-expelled,
}
use net_cat.Server.Course.{is_expelled, After, ◌⨾◌}
use net_cat.Server.Course.Rooms.{join_room-After}
use net_cat.Server.Course.Steps.{prepare_client_session-After, handle_session_read_error-After}
use net_cat.Server.Session.{chatting, joining, ReadError}
use net_cat.Server.Session.Admission.{join_room-member}
use net_cat.Server.Session.Endings.{IsOver, end_session-IsOver}
use net_cat.Server.Session.Steps.{
  enter_session, end_session, handle_session_read_error, on_join, on_read_error,
}

enter_session-After :
    (now : Now) (c : ℕ) (room : Bytes) (s : Server) → After [] (enter_session now c room s).1 s
unfolding enter_session
enter_session-After now c room s =
    prepare_client_session-After now c (join_room c room s) ⨾ join_room-After c room s

-- What is in the indexes when the session of an expelled client starts is there at its end.
enter_session-lingers :
    (now : Now) (c : ℕ) (room : Bytes) (e : ReadError) (s : Server)
    → is_expelled (s.heap c).disconnect_reason ≡ true
    → (let t = handle_session_read_error now c e (enter_session now c room s).1 in
        index (end_session now c t).1 ≡ index (join_room c room s))
unfolding enter_session
enter_session-lingers now c room e s h =
    let entered = enter_session-After now c room s in
    let failed = handle_session_read_error-After now c e (enter_session now c room s).1 in
    end_session-expelled now c _ ((failed ⨾ entered).course.expelled c h)
    ∙ handle_session_read_error-index now c e _
    ∙ prepare_client_session-index now c (join_room c room s)

-- A client that is kicked or banned after it was let into a room and before it enters it still
-- becomes a member of the room, and it is still one when its next read has failed and its
-- connection is over, since its end leaves it to the moderation to take it out.
pub on_join-lingers :
    (now : Now) (c : ℕ) (room : Bytes) (e : ReadError) (s : Server)
    → is_expelled (s.heap c).disconnect_reason ≡ true
    → (let (entered, t) = on_join now c (joining room) s in
        let r = on_read_error now c chatting e t in
        (entered ≡ chatting)
        × IsOver c r
        × ((index r.1).member_at room (s.heap c).username ≡ some c))
unfolding on_join on_read_error
on_join-lingers now c room e s h = (
  unfold enter_session in refl,
  end_session-IsOver now c _,
  ap {B = Option ℕ} (λ (x : Index). x.member_at room (s.heap c).username)
        (enter_session-lingers now c room e s h)
      ∙ (join_room-member c room s).0,
)
