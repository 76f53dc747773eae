-- ===== src/Server/World/Queued.antt =====
-- What holds in every world that can be reached: nobody's place in a queue is lost.
use net_cat.Base.{
  Bytes, ℕ, ◌==◌, ==_iff, true, false, ◌≡◌, sym, subst, ◌⊎◌, inl, inr, [], none, some, Bool-cases,
  arith,
}
use net_cat.Base.Assoc.{lookup}
use net_cat.Base.Heap.{update}
use net_cat.Logger.{content_of}
use net_cat.Logger.Growth.{Extends}
use net_cat.Server.{Server}
use net_cat.Server.Session.{Phase}
use net_cat.Server.Course.{is_expelled, view, IsThere, After, same, ◌⨾◌}
use net_cat.Server.Course.Sessions.{IsNumbered, Holds, Fares, After-IsNumbered, After-Holds}
use net_cat.Server.Course.Steps.{on_line-Fares, on_read_error-Fares, on_signal-Fares, on_join-Fares}
use net_cat.Server.Course.Events.{
  accept_connection-Fares, heartbeat_round-After, begin_shutdown-After, finish_shutdown-After,
  watch_round-After,
}
use net_cat.Server.Course.OperatorLines.{operator_dispatch-After}
use net_cat.Server.Course.Start.{start-After, boot-IsNumbered, boot-default}
use net_cat.Server.Listener.{boot}
use net_cat.Server.World.{
  World, moved, Step, accepts, reads, fails, is_signalled, joins, beats, operates, wakes,
  begins_shutdown, finishes_shutdown, Reach, here, later, IsStarted,
}

-- Every connection holds the place that its phase says.
pub record IsSound (w : World) : Type 0 where
  pub numbered : IsNumbered (view w.server)
  pub holding : (c : ℕ) (p : Phase) → w.phase_of c ≡ some p → Holds p c (view w.server)

-- What a step leads to: a sound world, whose server is a later one.
abbrev Goes : World → World → Type 0
Goes w x = IsSound x × After [] x.server w.server

served-Goes :
    (w : World) (t : Server) → After [] t w.server → IsSound w → Goes w (record w { server = t })
served-Goes w t after sound = (
  record {
    numbered = After-IsNumbered t w.server after sound.numbered;
    holding = λ c p e. After-Holds t w.server after p c (sound.holding c p e);
  },
  after,
)

moved-Goes :
    (w : World) (c : ℕ) (r : Phase × Server) → Fares c w.server r → IsSound w → Goes w (moved w c r)
moved-Goes w c (p, t) (after, holds) sound = (
  record {
    numbered = After-IsNumbered t w.server after sound.numbered;
    holding = λ d q e. own_or_other d q e (Bool-cases (c == d));
  },
  after,
)
  where
    own_or_other :
        (d : ℕ) (q : Phase)
        → update w.phase_of c (some p) d ≡ some q
        → ((c == d) ≡ true) ⊎ ((c == d) ≡ false)
        → Holds q d (view t)
    own_or_other d q e (inl h) =
        let same_client : c ≡ d = (==_iff c d).0 h in
        let same_phase : p ≡ q = ground arith in
        subst (λ (x : ℕ). Holds q x (view t)) same_client
          (subst (λ (x : Phase). Holds x c (view t)) same_phase holds)
    own_or_other d q e (inr h) = After-Holds t w.server after q d (sound.holding d q (ground arith))

Step-Goes : {w x : World} → Step w x → IsSound w → Goes w x
Step-Goes {w} (accepts now c ip free fresh) sound =
    moved-Goes w c _ (accept_connection-Fares now c ip w.server fresh) sound
Step-Goes {w} (reads now c p line e) sound =
    moved-Goes w c _ (on_line-Fares now c p line w.server sound.numbered (sound.holding c p e))
      sound
Step-Goes {w} (fails now c p err e) sound =
    moved-Goes w c _ (on_read_error-Fares now c p err w.server (sound.holding c p e)) sound
Step-Goes {w} (is_signalled c signal p e) sound =
    moved-Goes w c _ (on_signal-Fares c signal p w.server (sound.holding c p e)) sound
Step-Goes {w} (joins now c p e) sound =
    moved-Goes w c _ (on_join-Fares now c p w.server (sound.holding c p e)) sound
Step-Goes {w} (beats interval timeout c event) sound =
    served-Goes w _ (heartbeat_round-After interval timeout c event w.server) sound
Step-Goes {w} (operates now input) sound =
    served-Goes w _ (operator_dispatch-After now input w.server) sound
Step-Goes {w} (wakes wake) sound = served-Goes w _ (watch_round-After wake w.server) sound
Step-Goes {w} begins_shutdown sound = served-Goes w _ (begin_shutdown-After w.server) sound
Step-Goes {w} (finishes_shutdown now) sound =
    served-Goes w _ (finish_shutdown-After now w.server) sound

Reach-Goes : {v w : World} → IsSound v → Reach v w → Goes v w
Reach-Goes sound here = (sound, same)
Reach-Goes sound (later r st) =
    let (sound', after) = Reach-Goes sound r in
    let (sound'', after') = Step-Goes st sound' in (sound'', after' ⨾ after)

IsStarted-After :
    (w : World) (started : IsStarted w)
    → After [] w.server
        (boot started.port started.made started.now started.heap started.disk started.names)
IsStarted-After w started = start-After started.read_time true started.now _ w.server started.starts

IsStarted-IsSound : (w : World) → IsStarted w → IsSound w
IsStarted-IsSound w started = record {
  numbered = After-IsNumbered w.server _ (IsStarted-After w started) (
      boot-IsNumbered started.port started.made started.now started.heap started.disk
        started.names);
  holding = λ c p e. absurd (some_phase c p (started.nobody c) e);
}
  where
    some_phase : (c : ℕ) (p : Phase) → w.phase_of c ≡ none → w.phase_of c ≡ some p → ⊥
    some_phase c p h k = cc

-- In whatever order the connections, the operator, the heartbeats, midnight and a shutdown take
-- their steps, nobody's place in a queue is lost: a client that has been offered a place in a
-- room's queue, or waits for it, still has its entry there, under a number that no other client's
-- entry has, unless the entry has been admitted or the client's connection is closed.
pub Reach-IsSound : (v w : World) → IsStarted v → Reach v w → IsSound w
Reach-IsSound v w started r = (Reach-Goes (IsStarted-IsSound v started) r).0

-- Between any two points of a run, in whatever order the steps are taken, every file on the disk of
-- the logs keeps what it holds, and can only get longer at its end.
pub Reach-Extends :
    (u v w : World) (path : Bytes)
    → IsStarted u
    → Reach u v
    → Reach v w
    → Extends (content_of path v.server.disk.files) (content_of path w.server.disk.files)
Reach-Extends u v w path started before after =
    let sound = Reach-IsSound u v started before in (Reach-Goes sound after).1.course.logs path

-- In whatever order the steps of a run are taken, the default room is always there, and between
-- any two points of the run a connection that is closed stays closed, a client that was kicked or
-- banned keeps that as its end, no address changes, and a server that shuts down does not cease to.
pub Reach-keeps :
    (u v w : World)
    → IsStarted u
    → Reach u v
    → Reach v w
    → IsThere (lookup w.server.default_room w.server.rooms)
      × ((c : ℕ) → (v.server.heap c).done ≡ true → (w.server.heap c).done ≡ true)
      × ((c : ℕ)
          → is_expelled (v.server.heap c).disconnect_reason ≡ true
          → is_expelled (w.server.heap c).disconnect_reason ≡ true)
      × ((c : ℕ) → (w.server.heap c).ip ≡ (v.server.heap c).ip)
      × (v.server.quit ≡ true → w.server.quit ≡ true)
Reach-keeps u v w started before after =
    let sound = Reach-IsSound u v started before in
    let course = (Reach-Goes sound after).1.course in
    let run =
      ((Reach-Goes sound after).1
        ⨾ (Reach-Goes (IsStarted-IsSound u started) before).1
        ⨾ IsStarted-After u started).course in
    (
      subst (λ (n : Bytes). IsThere (lookup n w.server.rooms)) (sym run.same_default)
          (run.has_default (
            boot-default started.port started.made started.now started.heap started.disk
              started.names)),
      course.closed,
      course.expelled,
      course.address,
      course.quits,
    )
