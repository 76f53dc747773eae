-- ===== src/Server/Heartbeat/Laws.antt =====
-- Whom the heartbeat of server/server.go disconnects, and with what reason.
use net_cat.Base.{
  Bytes, codes, bytes_eq, ℕ, ◌+◌, Bool, true, false, ◌&&◌, ◌||◌, not, ◌≡◌, ◌≢◌, [], if◌then◌else◌,
  leb, ltb, arith, Bool-cases, inl, inr, refl,
}
use net_cat.Client.{Client, is_closed, close, get_last_input, set_disconnect_reason, send, enqueue}
use net_cat.Server.{Server, on_client, send_to}
use net_cat.Server.Heartbeat.{
  Probe, written, failed, timed_out, client_done, server_quit, write_probe, drop_connection,
  after_probe, on_tick,
}

-- A probe that shows that the other end is gone.
abbrev pub is_dead : Probe → Bool
is_dead (written elapsed) = false
is_dead failed = true
is_dead timed_out = true
is_dead client_done = false
is_dead server_quit = false

-- The client has sent nothing within the interval.
abbrev pub is_idle : ℕ → ℕ → Client → Bool
is_idle interval instant d = leb (d.last_input + interval) instant

-- Whether the tick disconnects the client.
abbrev pub is_dropped : ℕ → ℕ → Probe → Client → Bool
is_dropped interval instant probe d = not d.done && (is_idle interval instant d && is_dead probe)

send-state :
    (msg : Bytes) (d : Client)
    → ((send msg d).done ≡ d.done) × ((send msg d).disconnect_reason ≡ d.disconnect_reason)
unfolding send enqueue
send-state msg d = ground arith

-- From `s` to `t` the client is closed, where `dropped` says so, with the reason drop unless one was
-- there, and nothing else of the kind changes.
abbrev pub Drops : ℕ → Bool → Server → Server → Type 0
Drops c dropped s t =
    ((t.heap c).done ≡ ((s.heap c).done || dropped))
    × ((t.heap c).disconnect_reason ≡ (
        if dropped && bytes_eq (s.heap c).disconnect_reason []
        then codes "drop"
        else (s.heap c).disconnect_reason))
    × ((d : ℕ) → d ≢ c → t.heap d ≡ s.heap d)
    × (t ≡ record s { heap = t.heap })

unchanged : (c : ℕ) (s : Server) → Drops c false s s
unchanged c s = (ground arith, refl, λ d n. refl, refl)

drop_connection-Drops : (c : ℕ) (s : Server) → Drops c true s (drop_connection c s)
unfolding drop_connection on_client close set_disconnect_reason
drop_connection-Drops c s = (ground arith, ground arith, λ d n. ground arith, refl)

after_probe-Drops :
    (timeout c : ℕ) (probe : Probe) (s : Server)
    → Drops c (is_dead probe) s (after_probe timeout c probe s).1
unfolding after_probe write_probe on_client send_to
after_probe-Drops timeout c (written elapsed) s = (
  ground (arith, send-state (codes "Connection unstable...\n") (write_probe (s.heap c))),
  ground (arith, send-state (codes "Connection unstable...\n") (write_probe (s.heap c))),
  λ d n. ground arith,
  ground arith,
)
after_probe-Drops timeout c failed s = drop_connection-Drops c s
after_probe-Drops timeout c timed_out s = drop_connection-Drops c s
after_probe-Drops timeout c client_done s = unchanged c s
after_probe-Drops timeout c server_quit s = unchanged c s

same_drop :
    (c : ℕ) (b b' : Bool) (s t t' : Server) → b ≡ b' → t ≡ t' → Drops c b' s t' → Drops c b s t
same_drop c b b' s t t' h k v = rw (h, k) v

-- A tick closes the connection exactly when the client was open, has sent nothing within the
-- interval, and its probe fails or times out; it then gives the reason drop unless a reason was
-- there, and it touches no other client, no index, no room and no file in any case.
pub on_tick-Drops :
    (interval timeout c instant : ℕ) (probe : Probe) (s : Server)
    → Drops c
        (is_dropped interval instant probe (s.heap c))
        s
        (on_tick interval timeout c instant probe s).1
unfolding on_tick is_closed get_last_input
on_tick-Drops interval timeout c instant probe s = elim (Bool-cases (s.heap c).done) [
  | inl e ↦ same_drop c _ false s _ s (ground arith) (ground arith) (unchanged c s)
  | inr e ↦ elim (Bool-cases (ltb instant ((s.heap c).last_input + interval))) [
    | inl r ↦ same_drop c _ false s _ s (ground arith) (ground arith) (unchanged c s)
    | inr r ↦
        same_drop c _ (is_dead probe) s _ (after_probe timeout c probe s).1 (ground arith)
          (ground arith) (after_probe-Drops timeout c probe s)
  ]
]
