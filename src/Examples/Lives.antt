-- ===== src/Examples/Lives.antt =====
-- A dropped client, ended connections, an admission, a shutdown and a restart, on the server of
-- `Sessions`.
use net_cat.Base.{
  is_member, List, length, ◌+◌, ◌*◌, ◌≤◌, codes, bytes_eq, ℕ, ◌≡◌, refl, true, [], ◌∷◌, ◌++◌, none,
  some, arith, All, map, inl,
}
use net_cat.Base.Assoc.{lookup}
use net_cat.Base.Decimal.{padded, decimal}
use net_cat.Models.{Message}
use net_cat.Models.Format.{format_log_line, format_timestamp, room_tag, log_body}
use net_cat.Client.{new_client, is_closed, force_disconnect_reason}
use net_cat.Client.Read.{read_line_interactive}
use net_cat.Client.Lines.{IsRead, read_line_interactive-IsRead}
use net_cat.Logger.{new_logger, log_path, content_of, format_date}
use net_cat.Logger.Run.{IsReady, log_messages}
use net_cat.Server.{Server, log_to, on_client, send_to}
use net_cat.Server.Rooms.{admit_from_room_queue, next_open, get_room_history}
use net_cat.Server.Heartbeat.{failed, on_tick}
use net_cat.Server.Heartbeat.Laws.{Drops, is_dropped, on_tick-Drops}
use net_cat.Server.Session.{chatting, joining, waiting, eof, ReadError}
use net_cat.Server.Session.Steps.{admit_opened, on_read_error, on_signal, on_join}
use net_cat.Server.Session.Endings.{IsOver, on_read_error-IsOver}
use net_cat.Server.Session.Admission.{admit_from_room_queue-joins}
use net_cat.Server.Session.Lingering.{on_join-lingers}
use net_cat.Server.Course.{is_expelled}
use net_cat.Server.Course.Keep.{send_to-After}
use net_cat.Server.Index.{index}
use net_cat.Server.Shutdown.{finish_shutdown}
use net_cat.Server.Shutdown.Grace.{grace_period, round_sleep, await_clients, await_clients-closes}
use net_cat.Server.Shutdown.Closing.{finish_shutdown-closes}
use net_cat.Server.History.Recovery.{recovered_in}
use net_cat.Server.Admins.{load_admins}
use net_cat.Server.History.{recover_history}
use net_cat.Server.History.Scan.{IsLine}
use net_cat.Models.RoundTrip.Loggable.{IsLoggable}
use net_cat.Server.Listener.{start, boot, log_start}
use net_cat.Server.Listener.Laws.{start_message, start-log_messages}
use net_cat.Examples.{hello, hello-IsLoggable, read_noon, read_noon-noon, noon, logger, empty_disk}
use net_cat.Examples.Sessions.{late, pair, general, someone}

on_tick-Drops_example :
    Drops 1
      (is_dropped 10_000_000_000 400_000_000_000 failed (pair.heap 1))
      pair
      (on_tick 10_000_000_000 5_000_000_000 1 400_000_000_000 failed pair).1
on_tick-Drops_example = on_tick-Drops 10_000_000_000 5_000_000_000 1 400_000_000_000 failed pair

on_read_error-IsOver_example : IsOver 1 (on_read_error late 1 chatting eof pair)
on_read_error-IsOver_example = on_read_error-IsOver late 1 chatting eof pair refl

read_line_interactive-IsRead_example :
    IsRead
      (codes "hi" ++ 13 ∷ codes "x")
      (read_line_interactive (codes "hi" ++ 13 ∷ codes "x") someone).1
read_line_interactive-IsRead_example =
    read_line_interactive-IsRead (codes "hi" ++ 13 ∷ codes "x") someone

-- Client 2, kicked before it enters the room.
abbrev expelled : Server
expelled = on_client 2 (force_disconnect_reason (codes "kicked")) pair

expelled-is_expelled : is_expelled (expelled.heap 2).disconnect_reason ≡ true
unfolding on_client force_disconnect_reason codes bytes_eq
expelled-is_expelled = refl

on_join-lingers_example :
    (let (entered, t) = on_join late 2 (joining (codes "general")) expelled in
      let r = on_read_error late 2 chatting eof t in
      (entered ≡ chatting)
      × IsOver 2 r
      × ((index r.1).member_at (codes "general") (expelled.heap 2).username ≡ some 2))
on_join-lingers_example = on_join-lingers late 2 (codes "general") eof expelled expelled-is_expelled

abbrev two_rounds : List (ℕ × Server)
two_rounds = (1_000, pair) ∷ (60_000_000, pair) ∷ []

two_rounds-enough : grace_period round_sleep + round_sleep ≤ length two_rounds * round_sleep
unfolding grace_period
two_rounds-enough = omega arith

await_clients-closes_example :
    (s : Server) × (await_clients (1_000 + grace_period round_sleep) two_rounds ≡ some s)
    × ((c : ℕ) → is_member c s.all_clients ≡ true → ((finish_shutdown late s).heap c).done ≡ true)
await_clients-closes_example =
    await_clients-closes round_sleep 1_000 late two_rounds (omega arith, (omega arith, tt))
      two_rounds-enough

finish_shutdown-closes_example :
    ((c : ℕ)
      → is_member c (2 ∷ 1 ∷ 0 ∷ []) ≡ true
      → ((finish_shutdown late pair).heap c).done ≡ true)
    × ((m : Message)
        → (log_to m (finish_shutdown late pair)).disk ≡ (finish_shutdown late pair).disk)
finish_shutdown-closes_example = finish_shutdown-closes late pair

next_in_general : next_open pair.heap general.queue ≡ some (record { client = 2; id = 0 }, [])
unfolding next_open is_closed new_client
next_in_general = refl

general-found : lookup (codes "general") pair.rooms ≡ some general
unfolding lookup codes bytes_eq
general-found = refl

-- A server later than the admission: someone has been sent a line since.
abbrev later_server : Server
later_server = send_to 1 (codes "hello") (admit_from_room_queue (codes "general") pair)

admit_from_room_queue-joins_example :
    (let (phase, u) = on_join late 2 (joining (codes "general")) later_server in
      (on_signal 2 admit_opened (waiting (codes "general") 0) later_server
        ≡ (joining (codes "general"), later_server))
      × (phase ≡ chatting)
      × ((index u).member_at (codes "general") (later_server.heap 2).username ≡ some 2)
      × ((index u).room_at 2 ≡ codes "general")
      × ((err : ReadError)
          → IsOver 2 (on_read_error late 2 (waiting (codes "general") 0) err later_server)))
admit_from_room_queue-joins_example =
    admit_from_room_queue-joins late (codes "general") general (record { client = 2; id = 0 }) []
      pair later_server refl general-found next_in_general
      (send_to-After 1 (codes "hello") (admit_from_room_queue (codes "general") pair))

logger-IsReady : IsReady (codes "logs") (format_date noon) logger empty_disk
unfolding new_logger
logger-IsReady = record {
  open_log = record { dated = inl refl };
  running = refl;
  directory = refl;
  can_open = refl;
  can_write = refl;
}

shown-IsLoggable : IsLoggable (start_message late (codes "8989"))
unfolding codes
shown-IsLoggable = record { fields = ground arith; room_word = ground arith }

lines-IsLine : All IsLine (map format_log_line (hello ∷ start_message late (codes "8989") ∷ []))
unfolding format_log_line format_timestamp room_tag log_body codes padded decimal
lines-IsLine = ground arith

abbrev restarted : Server
restarted = recover_history read_noon late (
    load_admins (
      log_start late (
        boot (codes "8989") true late (λ i. someone) (log_messages (hello ∷ []) logger empty_disk).1
          none)))

starts :
    start read_noon true late (
      boot
        (codes "8989")
        true
        late
        (λ i. someone)
        (log_messages (hello ∷ []) logger empty_disk).1
        none)
    ≡ some restarted
unfolding start
starts = refl

nothing_logged : content_of (log_path (codes "logs") (format_date noon)) empty_disk.files ≡ []
unfolding lookup
nothing_logged = refl

start-log_messages_example :
    get_room_history (codes "dev") restarted
    ≡ recovered_in (codes "dev") (codes "general") (hello ∷ [])
start-log_messages_example =
    start-log_messages late (codes "8989") (λ i. someone) none read_noon (codes "dev") (hello ∷ [])
      logger empty_disk restarted logger-IsReady nothing_logged (refl, tt)
      ((hello-IsLoggable, read_noon-noon), ((shown-IsLoggable, read_noon-noon), tt)) lines-IsLine
      starts
