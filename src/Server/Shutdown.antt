-- ===== src/Server/Shutdown.antt =====
-- `Shutdown` of server/server.go, in the two steps around its grace period.
pub mod Laws
pub mod Closing
pub mod Grace
use net_cat.Base.{Bytes, codes, ℕ, List, [], ◌∷◌, Option, none, some, true}
use net_cat.Models.{server_event}
use net_cat.Client.{close}
use net_cat.Logger.{close_logger}
use net_cat.Server.{Server, Now, on_client, send_to, log_to}

unfoldable pub send_tracked : Bytes → List ℕ → Server → Server
send_tracked msg [] s = s
send_tracked msg (c ∷ cs) s = send_tracked msg cs (send_to c msg s)

-- The quit channel is closed, and every tracked connection told.
unfoldable pub begin_shutdown : Server → Server
begin_shutdown s =
    send_tracked (codes "Server is shutting down. Goodbye!\n") s.all_clients
      (record s { quit = true })

unfoldable pub close_tracked : List ℕ → Server → Server
close_tracked [] s = s
close_tracked (c ∷ cs) s = close_tracked cs (on_client c close s)

unfoldable pub close_log : Server → Server
close_log s = elim s.logger [ none ↦ s | some l ↦ record s { logger = some (close_logger l) } ]

-- After the grace period: what is still tracked is closed, the shutdown logged, the logger closed.
unfoldable pub finish_shutdown : Now → Server → Server
finish_shutdown now s = close_log (
    log_to
      (record {
        timestamp = now.local;
        sender = [];
        content = codes "Server shutting down";
        type = server_event;
        extra = [];
        room = [];
      })
      (close_tracked s.all_clients s))
