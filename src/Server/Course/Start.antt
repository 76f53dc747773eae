-- ===== src/Server/Course/Start.antt =====
-- The course of a start, server/server.go and server/history.go.
use net_cat.Base.{
  Bytes, bytes_eq, ℕ, Bool, true, false, codes, List, [], ◌∷◌, Option, none, some, inl, inr,
  Bool-cases, Option-cases, ◌≡◌, refl, arith, subst,
}
use net_cat.Base.Assoc.{lookup}
use net_cat.Models.{Time, Message, is_server_event}
use net_cat.Models.Parse.{Result, ok, err, parse_log_line}
use net_cat.Client.{Client}
use net_cat.Logger.{Disk}
use net_cat.Server.{Server, Now, new_room, new_server}
use net_cat.Server.Admins.{load_admins}
use net_cat.Server.History.{
  recover_message, recover_line, recover_lines, recover_file, recover_history, room_or_default,
}
use net_cat.Server.Listener.{log_start, start, boot}
use net_cat.Server.Course.{view, queue_at, In, IsThere, After, same, unseen, ◌⨾◌, either}
use net_cat.Server.Course.Keep.{log_to-After}
use net_cat.Server.Course.Rooms.{add_room_history-After}
use net_cat.Server.Course.Sessions.{IsNumbered}

log_start-After : (now : Now) (s : Server) → After [] (log_start now s) s
unfolding log_start
log_start-After now s = log_to-After _ s

load_admins-After : (s : Server) → After [] (load_admins s) s
unfolding load_admins
load_admins-After s = elim (Bool-cases (bytes_eq s.admins_file [])) [
  | inl a ↦ rw (a, load_admins) same
  | inr a ↦ elim (Option-cases s.admins_disk) [
    | inl e ↦ rw (a, e, load_admins) (unseen refl)
    | inr (names, e) ↦ rw (a, e, load_admins) (unseen refl)
  ]
]

module _ (read_time : Bytes → Option Time) where
  recover_message-After :
      (r : Result Message) (s : Server) → After [] (recover_message read_time r s) s
  unfolding recover_message
  recover_message-After (err e) s = same
  recover_message-After (ok m) s =
      either (is_server_event m.type) same (add_room_history-After (room_or_default m.room s) _ s)

  recover_line-After : (line : Bytes) (s : Server) → After [] (recover_line read_time line s) s
  unfolding recover_line
  recover_line-After [] s = same
  recover_line-After (b ∷ line) s = recover_message-After (parse_log_line read_time (b ∷ line)) s

  recover_lines-After :
      (lines : List Bytes) (s : Server) → After [] (recover_lines read_time lines s) s
  unfolding recover_lines
  recover_lines-After [] s = same
  recover_lines-After (line ∷ lines) s = recover_lines-After lines _ ⨾ recover_line-After line s

  recover_file-After : (o : Option Bytes) (s : Server) → After [] (recover_file read_time o s) s
  unfolding recover_file
  recover_file-After none s = same
  recover_file-After (some text) s = recover_lines-After _ s

  recover_history-After : (now : Now) (s : Server) → After [] (recover_history read_time now s) s
  unfolding recover_history
  recover_history-After now s = either _ same (recover_file-After _ s)

  pub start-After :
      (bound : Bool) (now : Now) (s t : Server)
      → start read_time bound now s ≡ some t
      → After [] t s
  unfolding start
  start-After true now s t e =
      let made : recover_history read_time now (load_admins (log_start now s)) ≡ t = cc in
      subst (λ (x : Server). After [] x s) made
        (recover_history-After now _ ⨾ load_admins-After _ ⨾ log_start-After now s)
  start-After false now s t e = cc

boot-queue :
    (port : Bytes) (made : Bool) (now : Now) (heap : ℕ → Client) (disk : Disk)
    (names : Option (List Bytes)) (room : Bytes)
    → queue_at room (view (boot port made now heap disk names)) ≡ []
unfolding boot new_server new_room lookup
boot-queue port made now heap disk names room = ground arith

-- Nobody queues at the start, and the default room is there.
pub boot-IsNumbered :
    (port : Bytes) (made : Bool) (now : Now) (heap : ℕ → Client) (disk : Disk)
    (names : Option (List Bytes))
    → IsNumbered (view (boot port made now heap disk names))
boot-IsNumbered port made now heap disk names room e h =
    absurd (subst (In e) (boot-queue port made now heap disk names room) h)

pub boot-default :
    (port : Bytes) (made : Bool) (now : Now) (heap : ℕ → Client) (disk : Disk)
    (names : Option (List Bytes))
    → (let s = boot port made now heap disk names in IsThere (lookup s.default_room s.rooms))
unfolding boot new_server lookup codes bytes_eq
boot-default port made now heap disk names = tt
