-- ===== src/Server/Listener/Laws.antt =====
-- A log that is read back when the server starts again, and a new day in the rooms:
-- server/server.go with server/history.go and logger/logger.go.
use net_cat.Base.{
  Bytes, codes, true, ◌≡◌, refl, sym, ◌∙◌, ap, List, [], ◌∷◌, ◌++◌, map, Option, some, All, arith,
  ℕ, append_assoc, inl,
}
use net_cat.Base.Assoc.{lookup}
use net_cat.Base.Scanner.{joined}
use net_cat.Models.{Time, Message, server_event}
use net_cat.Models.Format.{format_log_line}
use net_cat.Client.{Client}
use net_cat.Logger.{Disk, Logger, new_logger, log_path, content_of, format_date}
use net_cat.Logger.Run.{log_messages, IsReady, log_messages-IsReady, log_messages-content}
use net_cat.Server.{Server, Now, log_to, new_room, new_server}
use net_cat.Server.Admins.{load_admins}
use net_cat.Server.Rooms.{get_room_history}
use net_cat.Server.Rooms.History.{same_history}
use net_cat.Server.History.{recover_history}
use net_cat.Server.History.Recovery.{IsReadable, recovered_in}
use net_cat.Server.History.Scan.{IsLine}
use net_cat.Server.History.Restart.{logs, recover_history-lines}
use net_cat.Server.Listener.{start, boot, log_start}

-- What the server logs when it starts.
abbrev pub start_message : Now → Bytes → Message
start_message now port = record {
  timestamp = now.local;
  sender = [];
  content = codes "Server started on port " ++ port;
  type = server_event;
  extra = [];
  room = [];
}

joined-append : (xs ys : List Bytes) → joined (xs ++ ys) ≡ joined xs ++ joined ys
joined-append [] ys = refl
joined-append (x ∷ xs) ys =
    ap (λ (y : Bytes). x ++ 10 ∷ y) (joined-append xs ys) ∙ sym (append_assoc x _ _)

map-append :
    (ms ns : List Message)
    → map format_log_line (ms ++ ns) ≡ map format_log_line ms ++ map format_log_line ns
map-append [] ns = refl
map-append (m ∷ ms) ns = ap (◌∷◌ (format_log_line m)) (map-append ms ns)

-- The message of the start reaches no room.
recovered_in-start :
    (room d : Bytes) (now : Now) (port : Bytes) (ms : List Message)
    → recovered_in room d (ms ++ start_message now port ∷ []) ≡ recovered_in room d ms
recovered_in-start room d now port [] = refl
recovered_in-start room d now port (m ∷ ms) = ground (arith, recovered_in-start room d now port ms)

load_admins-keeps :
    (s : Server)
    → ((load_admins s).rooms ≡ s.rooms)
      × ((load_admins s).logger ≡ s.logger)
      × ((load_admins s).disk ≡ s.disk)
      × ((load_admins s).default_room ≡ s.default_room)
unfolding load_admins
load_admins-keeps s = (ground arith, ground arith, ground arith, ground arith)

log_to-run :
    (m : Message) (l : Logger) (s : Server)
    → s.logger ≡ some l
    → (let (l', d') = log_messages (m ∷ []) l s.disk in
        ((log_to m s).logger ≡ some l')
        × ((log_to m s).disk ≡ d')
        × ((log_to m s).rooms ≡ s.rooms)
        × ((log_to m s).default_room ≡ s.default_room))
unfolding log_to
log_to-run m l s e = (rw e refl, rw e refl, rw e refl, rw e refl)

module _ (now : Now) (port : Bytes) (heap : ℕ → Client) (admins_disk : Option (List Bytes)) where
  -- The logger of the new process.
  abbrev first_log : Disk → Logger × Disk
  first_log d = log_messages (start_message now port ∷ []) (new_logger logs) d

  start-log :
      (d : Disk)
      → (let s = load_admins (log_start now (boot port true now heap d admins_disk)) in
          (s.logger ≡ some (first_log d).0)
          × (s.disk ≡ (first_log d).1)
          × (s.rooms ≡ (new_server port now heap d admins_disk).rooms)
          × (s.default_room ≡ codes "general"))
  unfolding log_start boot new_server
  start-log d =
      let s = boot port true now heap d admins_disk in
      let (l, k, r, n) = log_to-run (start_message now port) (new_logger logs) s refl in
      let (r', l', k', n') = load_admins-keeps (log_start now s) in (l' ∙ l, k' ∙ k, r' ∙ r, n' ∙ n)

  new_server-history :
      (room : Bytes) (d : Disk)
      → get_room_history room (new_server port now heap d admins_disk) ≡ []
  unfolding get_room_history new_server new_room lookup
  new_server-history room d = ground arith

  fresh-IsReady :
      (d : Disk)
      → d.can_open (log_path logs (format_date now.local)) ≡ true
      → d.can_write (log_path logs (format_date now.local)) ≡ true
      → IsReady logs (format_date now.local) (new_logger logs) d
  unfolding new_logger
  fresh-IsReady d can_open can_write = record {
    open_log = record { dated = inl refl };
    running = refl;
    directory = refl;
    can_open = can_open;
    can_write = can_write;
  }

  -- What a run logged on a day is found in the rooms by a start later that day: when the first
  -- run's logger and disk let the day's file be written, the file holds nothing before it, and
  -- the messages, the start's own too, are loggable and their lines fit into the scanner's
  -- buffer, every room then has the messages of that run that belong to it, in their order, those
  -- without a room being in the default room.
  pub start-log_messages :
      (read_time : Bytes → Option Time) (room : Bytes) (ms : List Message) (l : Logger) (d : Disk)
      (t : Server)
      → IsReady logs (format_date now.local) l d
      → content_of (log_path logs (format_date now.local)) d.files ≡ []
      → All (λ m. format_date m.timestamp ≡ format_date now.local) ms
      → All (IsReadable read_time) (ms ++ start_message now port ∷ [])
      → All IsLine (map format_log_line (ms ++ start_message now port ∷ []))
      → start read_time true now (boot port true now heap (log_messages ms l d).1 admins_disk)
        ≡ some t
      → get_room_history room t ≡ recovered_in room (codes "general") ms
  unfolding start
  start-log_messages read_time room ms l d t ready empty dated readable lines e =
      let path = log_path logs (format_date now.local) in
      let shown = start_message now port ∷ [] in
      let d' = (log_messages ms l d).1 in
      let after = log_messages-IsReady logs _ ms l d ready in
      let second = fresh-IsReady d' after.can_open after.can_write in
      let s = load_admins (log_start now (boot port true now heap d' admins_disk)) in
      let (logger, disk, rooms, default_room) = start-log d' in
      let last = log_messages-IsReady logs _ shown (new_logger logs) d' second in
      let text : content_of path s.disk.files ≡ joined (map format_log_line (ms ++ shown)) =
        ap {B = Bytes} (λ (k : Disk). content_of path k.files) disk
        ∙ log_messages-content logs _ shown (new_logger logs) d' second (refl, tt)
        ∙ ap (λ (x : Bytes). x ++ joined (map format_log_line shown))
            (log_messages-content logs _ ms l d ready dated
              ∙ ap (λ (x : Bytes). x ++ joined (map format_log_line ms)) empty)
        ∙ sym (ap joined (map-append ms shown) ∙ joined-append (map format_log_line ms) _) in
      let found =
        recover_history-lines read_time now room (ms ++ shown) (first_log d').0 s logger
          last.directory (ap (λ (k : Disk). k.can_open path) disk ∙ last.can_open) text readable
          lines in
      let same : recover_history read_time now s ≡ t = cc in
      sym (ap {B = List Message} (get_room_history room) same)
      ∙ found
      ∙ ap (λ (h : List Message). h ++ recovered_in room s.default_room (ms ++ shown))
          (same_history room _ s rooms ∙ new_server-history room d')
      ∙ ap (λ (n : Bytes). recovered_in room n (ms ++ shown)) default_room
      ∙ recovered_in-start room (codes "general") now port ms
