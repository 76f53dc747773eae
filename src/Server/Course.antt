-- ===== src/Server/Course.antt =====
-- What the server keeps from any point of its run to any later one: the part of the state that
-- outlives a step, and the relation between two of them. The children show it of the operations.
pub mod Keep
pub mod Rooms
pub mod Queues
pub mod Removal
pub mod Inform
pub mod Travel
pub mod Moderate
pub mod Status
pub mod Lines
pub mod Operate
pub mod OperatorLines
pub mod Sessions
pub mod Onboard
pub mod Steps
pub mod Events
pub mod Start
use net_cat.Base.{
  Bytes, codes, bytes_eq, ◌||◌, is_member, ℕ, ◌≤◌, ◌<◌, Bool, true, ◌≡◌, refl, ◌∙◌, ◌⊎◌, inl, inr,
  List, [], ◌∷◌, ◌++◌, Option, none, some, append_assoc, append-nil, sym, ap, subst, arith,
  both_branches, if◌then◌else◌,
}
use net_cat.Base.Assoc.{Assoc, lookup}
use net_cat.Client.{Client}
use net_cat.Logger.{Disk, content_of}
use net_cat.Logger.Growth.{Extends}
use net_cat.Server.{Server, Room, QueueEntry}

pub record View : Type 0 where
  pub quit : Bool
  pub default_room : Bytes
  pub heap : ℕ → Client
  pub admitted : List ℕ
  pub next_entry : ℕ
  pub rooms : Assoc Room
  pub disk : Disk

abbrev pub view : Server → View
view s = record {
  quit = s.quit;
  default_room = s.default_room;
  heap = s.heap;
  admitted = s.admitted;
  next_entry = s.next_entry;
  rooms = s.rooms;
  disk = s.disk;
}

abbrev pub queue_in : Option Room → List QueueEntry
queue_in none = []
queue_in (some r) = r.queue

-- The queue of a room, empty if there is no such room.
abbrev pub queue_at : Bytes → View → List QueueEntry
queue_at room v = queue_in (lookup room v.rooms)

abbrev pub In : QueueEntry → List QueueEntry → Type 0
In e [] = ⊥
In e (x ∷ xs) = (x ≡ e) ⊎ In e xs

abbrev pub IsThere : Option Room → Type 0
IsThere none = ⊥
IsThere (some r) = Unit

-- Why an entry may have left its queue: it has been admitted, its client is closed, or is one of
-- those that the step is about to close.
abbrev pub MayLeave : List ℕ → View → QueueEntry → Type 0
MayLeave leaving v e =
    (is_member e.id v.admitted ≡ true)
    ⊎ ((v.heap e.client).done ≡ true)
    ⊎ (is_member e.client leaving ≡ true)

-- The reasons after which `cleanupConnection` leaves the client's end to the moderation.
abbrev pub is_expelled : Bytes → Bool
is_expelled reason = bytes_eq reason (codes "kicked") || bytes_eq reason (codes "banned")

-- From `u` to `v`: what is closed, expelled, admitted or shutting down stays so, addresses and the
-- default room stay, log files grow at their end only, and no entry leaves a queue but for a
-- reason, nor appears there but under a new number.
pub record Later (leaving : List ℕ) (v u : View) : Type 0 where
  pub quits : u.quit ≡ true → v.quit ≡ true
  pub same_default : v.default_room ≡ u.default_room
  pub has_default :
      IsThere (lookup u.default_room u.rooms) → IsThere (lookup u.default_room v.rooms)
  pub closed : (i : ℕ) → (u.heap i).done ≡ true → (v.heap i).done ≡ true
  pub expelled :
      (i : ℕ)
      → is_expelled (u.heap i).disconnect_reason ≡ true
      → is_expelled (v.heap i).disconnect_reason ≡ true
  pub address : (i : ℕ) → (v.heap i).ip ≡ (u.heap i).ip
  pub admits : (id : ℕ) → is_member id u.admitted ≡ true → is_member id v.admitted ≡ true
  pub counts : u.next_entry ≤ v.next_entry
  pub logs : (path : Bytes) → Extends (content_of path u.disk.files) (content_of path v.disk.files)
  pub stays :
      (room : Bytes) (e : QueueEntry)
      → In e (queue_at room u)
      → In e (queue_at room v) ⊎ MayLeave leaving v e
  pub comes :
      (room : Bytes) (e : QueueEntry)
      → In e (queue_at room v)
      → In e (queue_at room u) ⊎ ((u.next_entry ≤ e.id) × (e.id < v.next_entry))

pub unchanged : {leaving : List ℕ} {v : View} → Later leaving v v
unchanged {leaving} {v} = record {
  quits = λ h. h;
  same_default = refl;
  has_default = λ h. h;
  closed = λ i h. h;
  expelled = λ i h. h;
  address = λ i. refl;
  admits = λ id h. h;
  counts = omega arith;
  logs = λ path. ([], sym (append-nil _));
  stays = λ room e h. inl h;
  comes = λ room e h. inl h;
}

-- What was there is found again, or has left for a reason.
module _ (leaving : List ℕ) (w v u : View) (later : Later leaving w v)
    (sooner : Later leaving v u) where
  still_left : (e : QueueEntry) → MayLeave leaving v e → MayLeave leaving w e
  still_left e (inl h) = inl (later.admits e.id h)
  still_left e (inr (inl h)) = inr (inl (later.closed e.client h))
  still_left e (inr (inr h)) = inr (inr h)

  stays_on :
      (room : Bytes) (e : QueueEntry)
      → In e (queue_at room v) ⊎ MayLeave leaving v e
      → In e (queue_at room w) ⊎ MayLeave leaving w e
  stays_on room e (inl h) = later.stays room e h
  stays_on room e (inr h) = inr (still_left e h)

  came :
      (room : Bytes) (e : QueueEntry)
      → In e (queue_at room v) ⊎ ((v.next_entry ≤ e.id) × (e.id < w.next_entry))
      → In e (queue_at room u) ⊎ ((u.next_entry ≤ e.id) × (e.id < w.next_entry))
  came room e (inl h) = earlier (sooner.comes room e h)
    where
      earlier :
          In e (queue_at room u) ⊎ ((u.next_entry ≤ e.id) × (e.id < v.next_entry))
          → In e (queue_at room u) ⊎ ((u.next_entry ≤ e.id) × (e.id < w.next_entry))
      earlier (inl h) = inl h
      earlier (inr (l, r)) = inr (l, omega (arith, later.counts))
  came room e (inr (l, r)) = inr (omega (arith, sooner.counts), r)

  longer : (path : Bytes) → Extends (content_of path u.disk.files) (content_of path w.disk.files)
  longer path =
      let (x, p) = sooner.logs path in
      let (y, q) = later.logs path in
      (x ++ y, q ∙ ap (λ (t : Bytes). t ++ y) p ∙ append_assoc _ x y)

  default_stays : IsThere (lookup u.default_room u.rooms) → IsThere (lookup u.default_room w.rooms)
  default_stays h =
      subst (λ (n : Bytes). IsThere (lookup n w.rooms)) sooner.same_default
        (later.has_default (
          subst (λ (n : Bytes). IsThere (lookup n v.rooms)) (sym sooner.same_default)
            (sooner.has_default h)))

  compose : Later leaving w u
  compose = record {
    quits = λ h. later.quits (sooner.quits h);
    same_default = later.same_default ∙ sooner.same_default;
    has_default = default_stays;
    closed = λ i h. later.closed i (sooner.closed i h);
    expelled = λ i h. later.expelled i (sooner.expelled i h);
    address = λ i. later.address i ∙ sooner.address i;
    admits = λ id h. later.admits id (sooner.admits id h);
    counts = omega (arith, later.counts, sooner.counts);
    logs = longer;
    stays = λ room e h. stays_on room e (sooner.stays room e h);
    comes = λ room e h. came room e (later.comes room e h);
  }

-- From one server to a later one.
pub record After (leaving : List ℕ) (t s : Server) : Type 0 where
  pub course : Later leaving (view t) (view s)

module _ {leaving : List ℕ} where
  -- What the view does not show may change.
  pub unseen : {t s : Server} → view t ≡ view s → After leaving t s
  unseen {t} {s} e = record {
    course = subst (λ (v : View). Later leaving v (view s)) (sym e) unchanged;
  }

  pub same : {s : Server} → After leaving s s
  same = unseen refl

  infixr 40 ◌⨾◌
  pub ◌⨾◌ : {u t s : Server} → After leaving u t → After leaving t s → After leaving u s
  later ⨾ sooner = record { course = compose _ _ _ _ later.course sooner.course }

  -- Both branches of an `if`.
  pub either :
      (test : Bool) {a b s : Server}
      → After leaving a s
      → After leaving b s
      → After leaving (if test then a else b) s
  either test {s} h k = both_branches (λ (x : Server). After leaving x s) test h k
