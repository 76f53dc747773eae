-- ===== src/Server/Rooms/Queue.antt =====
-- The choice of the next entry of a room's queue, in `admitFromRoomQueue` of server/room.go.
use net_cat.Base.{
  ℕ, ◌≡◌, refl, ap, true, false, List, [], ◌∷◌, ◌++◌, Option, none, some, All, Bool-cases, inl, inr,
}
use net_cat.Client.{Client, is_closed}
use net_cat.Server.{QueueEntry}
use net_cat.Server.Rooms.{next_open}

abbrev pub IsGone : (ℕ → Client) → QueueEntry → Type 0
IsGone heap e = is_closed (heap e.client) ≡ true

-- What the loop of `admitFromRoomQueue` returns: the entry is open, all that stood before it are
-- closed, and what is left is all that stood behind it.
abbrev pub IsNext : (ℕ → Client) → List QueueEntry → Option (QueueEntry × List QueueEntry) → Type 0
IsNext heap q none = All (IsGone heap) q
IsNext heap q (some (e, es)) =
    (is_closed (heap e.client) ≡ false)
    × (front : List QueueEntry) × All (IsGone heap) front
    × (q ≡ front ++ e ∷ es)

further :
    (heap : ℕ → Client) (e : QueueEntry) (q : List QueueEntry)
    (o : Option (QueueEntry × List QueueEntry))
    → IsGone heap e
    → IsNext heap q o
    → IsNext heap (e ∷ q) o
further heap e q none g h = (g, h)
further heap e q (some (f, es)) g (o, front, gone, eq) = (o, e ∷ front, (g, gone), ap (◌∷◌ e) eq)

-- The first open entry is admitted, and none that is open is passed over; where none is admitted,
-- none is open.
pub next_open-IsNext : (heap : ℕ → Client) (q : List QueueEntry) → IsNext heap q (next_open heap q)
unfolding next_open
next_open-IsNext heap [] = tt
next_open-IsNext heap (e ∷ q) = elim (Bool-cases (is_closed (heap e.client))) [
  | inl g ↦ rw (g, next_open) (further heap e q (next_open heap q) g (next_open-IsNext heap q))
  | inr g ↦ rw (g, next_open) (g, [], tt, refl)
]
