-- ===== src/Server/World.antt =====
-- The server with all its connections, and what can happen next: every step of every goroutine of
-- server/server.go and server/handler.go, in any order.
pub mod Queued
use net_cat.Base.{Bytes, ℕ, ◌==◌, Bool, true, ◌≡◌, List, Option, none, some, if◌then◌else◌}
use net_cat.Base.Heap.{update}
use net_cat.Models.{Time}
use net_cat.Client.{Client, new_client}
use net_cat.Logger.{Disk}
use net_cat.Server.{Server, Now}
use net_cat.Server.Session.{Phase, ReadError}
use net_cat.Server.Session.Steps.{Signal, on_line, on_read_error, on_signal, on_join}
use net_cat.Server.Heartbeat.{Event, heartbeat_round}
use net_cat.Server.Listener.{start, boot, accept_connection, Wake, watch_round}
use net_cat.Server.Operator.Dispatch.{operator_dispatch}
use net_cat.Server.Shutdown.{begin_shutdown, finish_shutdown}

-- The phase of each connection that has been accepted, by its client's address.
pub record World : Type 0 where
  pub server : Server
  pub phase_of : ℕ → Option Phase

-- A connection has taken a step.
abbrev pub moved : World → ℕ → Phase × Server → World
moved w c (p, t) = record { server = t; phase_of = update w.phase_of c (some p) }

pub data Step (w : World) : World → Type 0 where
  accepts :
      (now : Now) (c : ℕ) (ip : Bytes)
      → w.phase_of c ≡ none
      → w.server.heap c ≡ new_client ip
      → Step w (moved w c (accept_connection now c ip w.server))
  reads :
      (now : Now) (c : ℕ) (p : Phase) (line : Bytes)
      → w.phase_of c ≡ some p
      → Step w (moved w c (on_line now c p line w.server))
  fails :
      (now : Now) (c : ℕ) (p : Phase) (e : ReadError)
      → w.phase_of c ≡ some p
      → Step w (moved w c (on_read_error now c p e w.server))
  is_signalled :
      (c : ℕ) (signal : Signal) (p : Phase)
      → w.phase_of c ≡ some p
      → Step w (moved w c (on_signal c signal p w.server))
  joins :
      (now : Now) (c : ℕ) (p : Phase)
      → w.phase_of c ≡ some p
      → Step w (moved w c (on_join now c p w.server))
  beats :
      (interval timeout c : ℕ) (event : Event)
      → Step w (record w { server = (heartbeat_round interval timeout c event w.server).1 })
  operates :
      (now : Now) (input : Bytes)
      → Step w (record w { server = operator_dispatch now input w.server })
  wakes : (wake : Wake) → Step w (record w { server = (watch_round wake w.server).1 })
  begins_shutdown : Step w (record w { server = begin_shutdown w.server })
  finishes_shutdown : (now : Now) → Step w (record w { server = finish_shutdown now w.server })

-- What can be reached from a world.
pub data Reach (v : World) : World → Type 0 where
  here : Reach v v
  later : {w x : World} → Reach v w → Step w x → Reach v x

-- A process that has started, with no connection yet.
pub record IsStarted (w : World) : Type 0 where
  pub read_time : Bytes → Option Time
  pub port : Bytes
  pub made : Bool
  pub now : Now
  pub heap : ℕ → Client
  pub disk : Disk
  pub names : Option (List Bytes)
  pub starts : start read_time true now (boot port made now heap disk names) ≡ some w.server
  pub nobody : (c : ℕ) → w.phase_of c ≡ none
