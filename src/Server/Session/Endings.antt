-- ===== src/Server/Session/Endings.antt =====
-- How a connection ends, server/handler.go: what is left of it when a read fails.
use net_cat.Base.{ℕ, is_member, ◌==◌, Bool, true, false, ◌≡◌, refl, List, [], ◌∷◌, keep, not, arith}
use net_cat.Client.{close}
use net_cat.Server.{Server, Now, on_client}
use net_cat.Server.Clients.{untrack_client}
use net_cat.Server.Session.{
  Phase, naming, choosing, chatting, gone, answering, waiting, joining, ReadError, abandon,
}
use net_cat.Server.Session.Steps.{cleanup_connection, end_session, on_read_error}

-- In which phases the program reads from the connection.
abbrev pub is_reading : Phase → Bool
is_reading naming = true
is_reading choosing = true
is_reading chatting = true
is_reading (answering room id) = true
is_reading (waiting room id) = true
is_reading (joining room) = false
is_reading gone = false

is_member-keep : (c : ℕ) (ds : List ℕ) → is_member c (keep (λ d. not (d == c)) ds) ≡ false
is_member-keep c [] = refl
is_member-keep c (d ∷ ds) = ground (arith, is_member-keep c ds)

-- The client is let go: its phase is the last one, its connection closed, and it is not tracked.
abbrev pub IsOver : ℕ → Phase × Server → Type 0
IsOver c (p, s) = (p ≡ gone) × ((s.heap c).done ≡ true) × (is_member c s.all_clients ≡ false)

closed-IsOver : (c : ℕ) (s : Server) → IsOver c (gone, untrack_client c (on_client c close s))
unfolding untrack_client on_client close
closed-IsOver c s = (refl, ground arith, is_member-keep c s.all_clients)

pub abandon-IsOver : (c : ℕ) (s : Server) → IsOver c (abandon c s)
unfolding abandon
abandon-IsOver c s = closed-IsOver c _

pub end_session-IsOver : (now : Now) (c : ℕ) (s : Server) → IsOver c (end_session now c s)
unfolding end_session cleanup_connection
end_session-IsOver now c s = closed-IsOver c _

-- A read that fails, in whatever phase reads, ends the connection: its phase is the last one, it is
-- closed, and it is no longer tracked.
pub on_read_error-IsOver :
    (now : Now) (c : ℕ) (p : Phase) (e : ReadError) (s : Server)
    → is_reading p ≡ true
    → IsOver c (on_read_error now c p e s)
unfolding on_read_error
on_read_error-IsOver now c naming e s h = closed-IsOver c _
on_read_error-IsOver now c choosing e s h = abandon-IsOver c _
on_read_error-IsOver now c chatting e s h = end_session-IsOver now c _
on_read_error-IsOver now c (answering room id) e s h = abandon-IsOver c _
on_read_error-IsOver now c (waiting room id) e s h = abandon-IsOver c _
on_read_error-IsOver now c (joining room) e s h = absurd (ground arith)
on_read_error-IsOver now c gone e s h = absurd (ground arith)
