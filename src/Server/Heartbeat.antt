-- ===== src/Server/Heartbeat.antt =====
-- `startHeartbeat` of server/server.go: the rounds of its loop, each a tick of the timer with the
-- outcome of the probe, or one of the two channels that end it.
pub mod Laws
use net_cat.Base.{
  codes, ℕ, ◌+◌, ◌*◌, ◌/◌, Bool, true, false, [], ◌∷◌, ◌++◌, if◌then◌else◌, ltb, ◌==◌,
}
use net_cat.Client.{Client, close, is_closed, get_last_input, set_disconnect_reason}
use net_cat.Server.{Server, on_client, send_to}

-- Seconds, in nanoseconds.
abbrev second : ℕ
second = 1_000_000_000

-- The configured interval and timeout, 0 standing for the default.
unfoldable pub heartbeat_interval : ℕ → ℕ
heartbeat_interval configured = if configured == 0 then 10 * second else configured

unfoldable pub heartbeat_timeout : ℕ → ℕ
heartbeat_timeout configured = if configured == 0 then 5 * second else configured

-- How the inner `select` ends: the write returns after some time or fails, the timeout passes, or
-- the client or the server is done.
pub data Probe : Type 0 where
  written : ℕ → Probe
  failed timed_out client_done server_quit : Probe

-- Whether the loop goes on.
pub data Beat : Type 0 where
  beating stopped : Beat

unfoldable pub drop_connection : ℕ → Server → Server
drop_connection c s = on_client c close (on_client c (set_disconnect_reason (codes "drop")) s)

-- The null byte is written past the queue.
unfoldable pub write_probe : Client → Client
write_probe d = record d { sent = d.sent ++ 0 ∷ [] }

unfoldable pub after_probe : ℕ → ℕ → Probe → Server → Beat × Server
after_probe timeout c (written elapsed) s =
    let probed = on_client c write_probe s in
    (
      beating,
      if ltb (timeout / 2) elapsed
          then send_to c (codes "Connection unstable...\n") probed
          else probed,
    )
after_probe timeout c failed s = (stopped, drop_connection c s)
after_probe timeout c timed_out s = (stopped, drop_connection c s)
after_probe timeout c client_done s = (stopped, s)
after_probe timeout c server_quit s = (stopped, s)

-- A tick at the given instant. A client that has sent something within the interval is not
-- probed.
unfoldable pub on_tick : ℕ → ℕ → ℕ → ℕ → Probe → Server → Beat × Server
on_tick interval timeout c instant probe s =
    if is_closed (s.heap c)
    then (stopped, s)
    else if ltb instant (get_last_input (s.heap c) + interval)
    then (beating, s)
    else after_probe timeout c probe s

-- What the outer `select` receives.
pub data Event : Type 0 where
  tick : ℕ → Probe → Event
  done quit : Event

unfoldable pub heartbeat_round : ℕ → ℕ → ℕ → Event → Server → Beat × Server
unfolding heartbeat_interval heartbeat_timeout
heartbeat_round interval timeout c (tick instant probe) s =
    on_tick (heartbeat_interval interval) (heartbeat_timeout timeout) c instant probe s
heartbeat_round interval timeout c done s = (stopped, s)
heartbeat_round interval timeout c quit s = (stopped, s)
