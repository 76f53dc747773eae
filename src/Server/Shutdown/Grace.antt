-- ===== src/Server/Shutdown/Grace.antt =====
-- The grace period in the middle of `Shutdown`, server/server.go: the loop that waits for the
-- clients to leave, as to what it sees in each of its rounds.
use net_cat.Base.{
  is_member, ℕ, ◌+◌, ◌*◌, ◌==◌, ◌≤◌, ◌<◌, ltb, length, Bool, true, ◌||◌, not, ◌≡◌, refl, List, [],
  ◌∷◌, Option, none, some, if◌then◌else◌, inl, inr, Bool-cases, arith,
}
use net_cat.Server.{Server, Now}
use net_cat.Server.Rooms.{is_empty}
use net_cat.Server.Shutdown.{finish_shutdown}
use net_cat.Server.Shutdown.Closing.{finish_shutdown-closes}

-- `ShutdownTimeout` in nanoseconds, 0 standing for the default of five seconds.
unfoldable pub grace_period : ℕ → ℕ
grace_period configured = if configured == 0 then 5_000_000_000 else configured

-- The sleep of a round, 50 milliseconds.
abbrev pub round_sleep : ℕ
round_sleep = 50_000_000

-- Whether a round is the last: the deadline has passed, or nobody is tracked.
unfoldable pub is_grace_over : ℕ → ℕ → Server → Bool
is_grace_over deadline instant s = not (ltb instant deadline) || is_empty s.all_clients

-- The loop on the instants and the servers that its rounds find: the server on which it ends, or
-- none if it still waits after these rounds.
unfoldable pub await_clients : ℕ → List (ℕ × Server) → Option Server
await_clients deadline [] = none
await_clients deadline ((instant, s) ∷ rounds) =
    let rest = await_clients deadline rounds in
    if is_grace_over deadline instant s then some s else rest

-- The rounds begin at some instant or later, and each sleeps before the next.
abbrev pub IsSpaced : ℕ → List (ℕ × Server) → Type 0
IsSpaced t [] = Unit
IsSpaced t ((instant, s) ∷ rounds) = (t ≤ instant) × IsSpaced (instant + round_sleep) rounds

await_clients-ends :
    (deadline t : ℕ) (rounds : List (ℕ × Server))
    → IsSpaced t rounds
    → t < deadline + round_sleep
    → deadline + round_sleep ≤ t + length rounds * round_sleep
    → (s : Server) × (await_clients deadline rounds ≡ some s)
unfolding await_clients is_grace_over
await_clients-ends deadline t [] spaced late enough = absurd (omega arith)
await_clients-ends deadline t ((instant, s) ∷ rounds) (first, spaced) late enough =
    elim (Bool-cases (is_grace_over deadline instant s)) [
      | inl over ↦ (s, rw (over, await_clients) refl)
      | inr waits ↦
          let (last, ends) =
            await_clients-ends deadline (instant + round_sleep) rounds spaced (ground arith)
              (omega arith) in
          (last, rw (waits, await_clients) ends)
    ]

-- With rounds that sleep for 50 milliseconds each, the grace period ends within as many as fill it
-- and one more, and the shutdown that goes on from there closes every connection that is tracked
-- then.
pub await_clients-closes :
    (configured began : ℕ) (now : Now) (rounds : List (ℕ × Server))
    → IsSpaced began rounds
    → grace_period configured + round_sleep ≤ length rounds * round_sleep
    → (s : Server) × (await_clients (began + grace_period configured) rounds ≡ some s)
      × ((c : ℕ) → is_member c s.all_clients ≡ true → ((finish_shutdown now s).heap c).done ≡ true)
await_clients-closes configured began now rounds spaced enough =
    let (s, ends) =
      await_clients-ends (began + grace_period configured) began rounds spaced (omega arith)
        (omega arith) in
    (s, ends, (finish_shutdown-closes now s).0)
