-- ===== src/Server.antt =====
-- server/server.go and server/room.go: the server's state and the helpers of every handler.
--
-- A client is an address in `heap`, as a `*client.Client` is in the program, so a change of a
-- client is seen through every map that holds it. A handler runs as one step, with one reading
-- `now` of the clock; the locks are not modelled.
pub mod Names
pub mod Rooms
pub mod Clients
pub mod Moderation
pub mod Admins
pub mod History
pub mod Commands
pub mod Operator
pub mod Session
pub mod Heartbeat
pub mod Listener
pub mod Shutdown
pub mod Index
pub mod Consistency
pub mod Rights
pub mod Course
pub mod World
use net_cat.Base.{
  Bytes, codes, bytes_eq, ℕ, Bool, true, false, List, [], ◌∷◌, ◌++◌, Option, none, some,
  if◌then◌else◌,
}
use net_cat.Base.Assoc.{Assoc, lookup, insert}
use net_cat.Base.Heap.{update}
use net_cat.Models.{Time, Message}
use net_cat.Models.Format.{format_prompt}
use net_cat.Client.{Client, send, send_prompt}
use net_cat.Logger.{Disk, Logger, log_message}

-- `id` tells entries apart, as their addresses do; the `admit` channel of an entry is closed when
-- its id is in `admitted`.
pub record QueueEntry : Type 0 where
  pub client : ℕ
  pub id : ℕ

pub record Room : Type 0 where
  pub name : Bytes
  pub clients : Assoc ℕ
  pub history : List Message
  pub queue : List QueueEntry

-- A reading of the clock: nanoseconds, and the local calendar.
pub record Now : Type 0 where
  pub instant : ℕ
  pub local : Time

pub record Server : Type 0 where
  pub port : Bytes
  pub clients : Assoc ℕ
  pub all_clients : List ℕ
  pub rooms : Assoc Room
  pub default_room : Bytes
  pub reserved_names : Assoc Bool
  pub quit : Bool
  pub logger : Option Logger
  pub start_time : ℕ
  pub kicked_ips : Assoc ℕ
  pub banned_ips : Assoc Bool
  pub admins : Assoc Bool
  pub admins_file : Bytes
  pub operator_output : Bytes
  -- What is outside the record of the program: the clients, the files, the admit channels.
  pub heap : ℕ → Client
  pub disk : Disk
  pub admins_disk : Option (List Bytes)
  pub admitted : List ℕ
  pub next_entry : ℕ

abbrev pub max_active_clients : ℕ
max_active_clients = 10

-- `m[k]` of a `map[string]bool`.
abbrev pub is_set : Bytes → Assoc Bool → Bool
is_set k m = elim (lookup k m) [ none ↦ false | some b ↦ b ]

unfoldable pub new_room : Bytes → Room
new_room name = record { name = name; clients = []; history = []; queue = [] }

-- `New`, with the clients and files that the process finds.
unfoldable pub new_server : Bytes → Now → (ℕ → Client) → Disk → Option (List Bytes) → Server
unfolding new_room
new_server port now heap disk admins_disk = record {
  port = port;
  clients = [];
  all_clients = [];
  rooms = (codes "general", new_room (codes "general")) ∷ [];
  default_room = codes "general";
  reserved_names = (codes "Server", true) ∷ [];
  quit = false;
  logger = none;
  start_time = now.instant;
  kicked_ips = [];
  banned_ips = [];
  admins = [];
  admins_file = codes "admins.json";
  operator_output = [];
  heap = heap;
  disk = disk;
  admins_disk = admins_disk;
  admitted = [];
  next_entry = 0;
}

-- A method call on the client at an address.
unfoldable pub on_client : ℕ → (Client → Client) → Server → Server
on_client i f s = record s { heap = update s.heap i (f (s.heap i)) }

-- `c.Send(msg)` and `c.SendPrompt(models.FormatPrompt(time.Now(), c.Username))`.
unfoldable pub send_to : ℕ → Bytes → Server → Server
unfolding on_client
send_to i msg = on_client i (send msg)

unfoldable pub prompt_to : Now → ℕ → Server → Server
unfolding on_client
prompt_to now i s = on_client i (send_prompt (format_prompt now.local (s.heap i).username)) s

-- `s.Logger.Log(msg)`; a nil logger does nothing.
unfoldable pub log_to : Message → Server → Server
log_to msg s = elim s.logger [
  | none ↦ s
  | some l ↦ record s {
    logger = some (log_message msg l s.disk).0;
    disk = (log_message msg l s.disk).1;
  }
]

unfoldable pub is_shutting_down : Server → Bool
is_shutting_down s = s.quit
