-- ===== src/Examples/Runs.antt =====
-- A run: a start without a log, a connection, an announcement of the operator.
use net_cat.Base.{codes, bytes_eq, ℕ, true, false, ◌≡◌, refl, none, some}
use net_cat.Base.Assoc.{lookup}
use net_cat.Logger.{content_of, file_path}
use net_cat.Logger.Growth.{Extends}
use net_cat.Server.{Server, new_server, log_to}
use net_cat.Server.Admins.{load_admins}
use net_cat.Server.History.{recover_history}
use net_cat.Server.Listener.{start, boot, log_start, accept_connection}
use net_cat.Server.Operator.Dispatch.{operator_dispatch}
use net_cat.Server.Course.{IsThere, is_expelled}
use net_cat.Server.World.{World, moved, Reach, here, later, accepts, operates, IsStarted}
use net_cat.Server.World.Queued.{IsSound, Reach-IsSound, Reach-Extends, Reach-keeps}
use net_cat.Examples.{read_noon}
use net_cat.Examples.Sessions.{early, late, someone, disk}

abbrev fresh : Server
fresh = boot (codes "8989") false early (λ i. someone) disk none

abbrev started : World
started = record { server = fresh; phase_of = λ c. none }

started-starts : start read_noon true early fresh ≡ some fresh
unfolding start log_start log_to load_admins recover_history file_path boot new_server bytes_eq
    codes
started-starts = refl

started-IsStarted : IsStarted started
started-IsStarted = record {
  read_time = read_noon;
  port = codes "8989";
  made = false;
  now = early;
  heap = λ i. someone;
  disk = disk;
  names = none;
  starts = started-starts;
  nobody = λ c. refl;
}

abbrev connected : World
connected = moved started 4 (accept_connection early 4 (codes "10.0.0.7:5000") fresh)

abbrev announced : World
announced = record connected {
  server = operator_dispatch late (codes "/announce hi") connected.server;
}

connects : Reach started connected
unfolding boot new_server
connects = later here (accepts early 4 (codes "10.0.0.7:5000") refl refl)

announces : Reach connected announced
announces = later here (operates late (codes "/announce hi"))

Reach-IsSound_example : IsSound connected
Reach-IsSound_example = Reach-IsSound started connected started-IsStarted connects

Reach-Extends_example :
    Extends
      (content_of (codes "logs/chat.log") connected.server.disk.files)
      (content_of (codes "logs/chat.log") announced.server.disk.files)
Reach-Extends_example =
    Reach-Extends started connected announced (codes "logs/chat.log") started-IsStarted connects
      announces

Reach-keeps_example :
    IsThere (lookup announced.server.default_room announced.server.rooms)
    × ((c : ℕ) → (connected.server.heap c).done ≡ true → (announced.server.heap c).done ≡ true)
    × ((c : ℕ)
        → is_expelled (connected.server.heap c).disconnect_reason ≡ true
        → is_expelled (announced.server.heap c).disconnect_reason ≡ true)
    × ((c : ℕ) → (announced.server.heap c).ip ≡ (connected.server.heap c).ip)
    × (connected.server.quit ≡ true → announced.server.quit ≡ true)
Reach-keeps_example = Reach-keeps started connected announced started-IsStarted connects announces
