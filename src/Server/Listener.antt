-- ===== src/Server/Listener.antt =====
-- `Start` and `acceptLoop` of server/server.go, and the watcher for midnight. The sockets and the
-- timers are the events that they deliver.
pub mod Laws
use net_cat.Base.{
  Bytes, codes, ℕ, Bool, true, false, List, [], ◌++◌, Option, none, some, if◌then◌else◌,
}
use net_cat.Base.Heap.{update}
use net_cat.Models.{Time, server_event}
use net_cat.Client.{Client, new_client}
use net_cat.Logger.{Disk, new_logger}
use net_cat.Server.{Server, Now, new_server, log_to, is_shutting_down}
use net_cat.Server.Admins.{load_admins}
use net_cat.Server.History.{clear_history, recover_history}
use net_cat.Server.Session.{Phase, open_connection}

unfoldable pub log_start : Now → Server → Server
log_start now s =
    log_to
      (record {
        timestamp = now.local;
        sender = [];
        content = codes "Server started on port " ++ s.port;
        type = server_event;
        extra = [];
        room = [];
      })
      s

-- `New` and the logger that `main` gives it, nil where the directory cannot be made.
unfoldable pub boot : Bytes → Bool → Now → (ℕ → Client) → Disk → Option (List Bytes) → Server
boot port made now heap disk admins_disk = record (new_server port now heap disk admins_disk) {
  logger = if made then some (new_logger (codes "logs")) else none;
}

-- `Start` up to its accept loop, where the port can be bound: `none` where it returns the error of
-- `net.Listen`.
unfoldable pub start : (Bytes → Option Time) → Bool → Now → Server → Option Server
unfolding log_start
start read_time bound now s =
    if bound then some (recover_history read_time now (load_admins (log_start now s))) else none

-- `handleConnection` up to its first read, for a connection whose client is put at a free address.
unfoldable pub accept_connection : Now → ℕ → Bytes → Server → Phase × Server
accept_connection now c ip s =
    open_connection now c (record s { heap = update s.heap c (new_client ip) })

-- What `Accept` returns: a connection, whose client is put at an address, or an error.
pub data Accepted : Type 0 where
  connection : ℕ → Bytes → Accepted
  accept_error : Accepted

-- One round of `acceptLoop`: whether it goes on, and the phase of a new connection.
unfoldable pub accept_round : Now → Accepted → Server → Bool × Option Phase × Server
unfolding accept_connection
accept_round now (connection c ip) s =
    let (phase, s') = accept_connection now c ip s in (true, some phase, s')
accept_round now accept_error s = (if is_shutting_down s then false else true, none, s)

-- What the midnight watcher's `select` receives.
pub data Wake : Type 0 where
  midnight quit : Wake

-- One round of the watcher, and whether it goes on.
unfoldable pub watch_round : Wake → Server → Bool × Server
watch_round midnight s = (true, clear_history s)
watch_round quit s = (false, s)
