-- ===== src/Server/Course/Sessions.antt =====
-- The course of a connection, server/handler.go, and what its phase says of its place in a queue.
use net_cat.Base.{Bytes, ℕ, ◌≤◌, ◌<◌, ◌≡◌, ◌⊎◌, inl, inr, [], arith}
use net_cat.Server.{Server, QueueEntry}
use net_cat.Server.Session.{Phase, naming, choosing, chatting, gone, answering, waiting, joining}
use net_cat.Server.Course.{View, view, queue_at, In, MayLeave, After}

-- Every entry's number is below the next one to be given.
abbrev pub IsNumbered : View → Type 0
IsNumbered v = (room : Bytes) (e : QueueEntry) → In e (queue_at room v) → e.id < v.next_entry

-- The place that was given to the client: its number is its own, and the entry is in the queue
-- unless it has been admitted or the client is closed.
abbrev pub HasPlace : Bytes → ℕ → ℕ → View → Type 0
HasPlace room id c v =
    (id < v.next_entry)
    × ((e : QueueEntry) → In e (queue_at room v) → e.id ≡ id → e.client ≡ c)
    × (In (record { client = c; id = id }) (queue_at room v)
        ⊎ MayLeave [] v (record { client = c; id = id }))

abbrev pub Holds : Phase → ℕ → View → Type 0
Holds naming c v = Unit
Holds choosing c v = Unit
Holds chatting c v = Unit
Holds gone c v = Unit
Holds (answering room id) c v = HasPlace room id c v
Holds (waiting room id) c v = HasPlace room id c v
Holds (joining room) c v = Unit

module _ (t s : Server) (after : After [] t s) where
  pub After-IsNumbered : IsNumbered (view s) → IsNumbered (view t)
  After-IsNumbered h room e k = bounded (after.course.comes room e k)
    where
      bounded :
          In e (queue_at room (view s)) ⊎ ((s.next_entry ≤ e.id) × (e.id < t.next_entry))
          → e.id < t.next_entry
      bounded (inl m) = omega (arith, h room e m, after.course.counts)
      bounded (inr (l, r)) = r

  pub After-HasPlace :
      (room : Bytes) (id c : ℕ) → HasPlace room id c (view s) → HasPlace room id c (view t)
  After-HasPlace room id c (below, own, place) = (
    omega (arith, after.course.counts),
    λ e k p. owned e p (after.course.comes room e k),
    placed place,
  )
    where
      owned :
          (e : QueueEntry)
          → e.id ≡ id
          → In e (queue_at room (view s)) ⊎ ((s.next_entry ≤ e.id) × (e.id < t.next_entry))
          → e.client ≡ c
      owned e p (inl m) = own e m p
      owned e p (inr (l, r)) = absurd (omega arith)

      placed :
          In (record { client = c; id = id }) (queue_at room (view s))
            ⊎ MayLeave [] (view s) (record { client = c; id = id })
          → In (record { client = c; id = id }) (queue_at room (view t))
            ⊎ MayLeave [] (view t) (record { client = c; id = id })
      placed (inl m) = after.course.stays room _ m
      placed (inr (inl a)) = inr (inl (after.course.admits id a))
      placed (inr (inr (inl d))) = inr (inr (inl (after.course.closed c d)))
      placed (inr (inr (inr m))) = cc

  pub After-Holds : (p : Phase) (c : ℕ) → Holds p c (view s) → Holds p c (view t)
  After-Holds naming c h = tt
  After-Holds choosing c h = tt
  After-Holds chatting c h = tt
  After-Holds gone c h = tt
  After-Holds (answering room id) c h = After-HasPlace room id c h
  After-Holds (waiting room id) c h = After-HasPlace room id c h
  After-Holds (joining room) c h = tt

-- A step of the client's own.
abbrev pub Fares : ℕ → Server → Phase × Server → Type 0
Fares c s (p, t) = After [] t s × Holds p c (view t)
