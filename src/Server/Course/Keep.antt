-- ===== src/Server/Course/Keep.antt =====
-- The course of the primitive changes: a client, a room, the log.
use net_cat.Base.{
  Bytes, bytes_eq, bytes_eq_iff, is_member, ℕ, ◌≤◌, ◌<◌, ◌==◌, ==_iff, true, ◌≡◌, refl, sym, ◌∙◌,
  subst, ◌⊎◌, inl, inr, List, [], Option, none, some, arith, if◌then◌else◌, Bool-cases, Bool,
  append-nil, ap,
}
use net_cat.Base.Assoc.{Assoc, lookup, insert, lookup-insert}
use net_cat.Models.{Message}
use net_cat.Client.{Client, WriteMsg, enqueue, send, send_prompt}
use net_cat.Logger.{Disk, Logger, content_of, log_message}
use net_cat.Logger.Growth.{Extends, log_message-Extends}
use net_cat.Server.{Server, Room, QueueEntry, Now, update, on_client, send_to, prompt_to, log_to}
use net_cat.Server.Rooms.{put_room}
use net_cat.Server.Course.{
  View, view, queue_in, queue_at, In, IsThere, MayLeave, Later, After, unchanged, is_expelled,
}

-- Clients change: what is closed stays closed, and the addresses stay.
pub reheaped :
    {leaving : List ℕ} (heap : ℕ → Client) (v : View)
    → ((i : ℕ) → (v.heap i).done ≡ true → (heap i).done ≡ true)
    → ((i : ℕ)
        → is_expelled (v.heap i).disconnect_reason ≡ true
        → is_expelled (heap i).disconnect_reason ≡ true)
    → ((i : ℕ) → (heap i).ip ≡ (v.heap i).ip)
    → Later leaving (record v { heap = heap }) v
reheaped heap v closed expelled address = record {
  quits = λ h. h;
  same_default = refl;
  has_default = λ h. h;
  closed = closed;
  expelled = expelled;
  address = address;
  admits = λ id h. h;
  counts = omega arith;
  logs = λ path. ([], sym (append-nil _));
  stays = λ room e h. inl h;
  comes = λ room e h. inl h;
}

-- The log files grow.
pub relogged :
    {leaving : List ℕ} (disk : Disk) (v : View)
    → ((path : Bytes) → Extends (content_of path v.disk.files) (content_of path disk.files))
    → Later leaving (record v { disk = disk }) v
relogged disk v logs = record {
  quits = λ h. h;
  same_default = refl;
  has_default = λ h. h;
  closed = λ i h. h;
  expelled = λ i h. h;
  address = λ i. refl;
  admits = λ id h. h;
  counts = omega arith;
  logs = logs;
  stays = λ room e h. inl h;
  comes = λ room e h. inl h;
}

pub on_client-After :
    {leaving : List ℕ} (c : ℕ) (f : Client → Client) (s : Server)
    → ((s.heap c).done ≡ true → (f (s.heap c)).done ≡ true)
    → (is_expelled (s.heap c).disconnect_reason ≡ true
        → is_expelled (f (s.heap c)).disconnect_reason ≡ true)
    → (f (s.heap c)).ip ≡ (s.heap c).ip
    → After leaving (on_client c f s) s
unfolding on_client
on_client-After c f s closed expelled address = record {
  course =
      reheaped _ _ (λ i h. ground (arith, ==_iff c i)) (λ i h. still_expelled i h)
        (λ i. ground (arith, ==_iff c i));
}
  where
    still_expelled :
        (i : ℕ)
        → is_expelled (s.heap i).disconnect_reason ≡ true
        → is_expelled (update s.heap c (f (s.heap c)) i).disconnect_reason ≡ true
    still_expelled i h = elim (Bool-cases (c == i)) [
      | inl t ↦ rw t (
          expelled (
            subst (λ (x : ℕ). is_expelled (s.heap x).disconnect_reason ≡ true)
              (sym ((==_iff c i).0 t)) h))
      | inr t ↦ rw t h
    ]

IsThere-insert :
    (name k : Bytes) (r : Room) (m : Assoc Room)
    → IsThere (lookup k m)
    → IsThere (lookup k (insert name r m))
IsThere-insert name k r m h =
    subst IsThere (sym (lookup-insert name k r m))
      (elim (Bool-cases (bytes_eq name k)) [ inl e ↦ rw e tt | inr e ↦ rw e h ])

queue_in-insert :
    (name k : Bytes) (r : Room) (m : Assoc Room)
    → queue_in (lookup k (insert name r m))
      ≡ (if bytes_eq name k then r.queue else queue_in (lookup k m))
queue_in-insert name k r m = ground (arith, lookup-insert name k r m)

-- A statement of the room's queue and of the others'.
at_room {ℓ} :
    (P : Bytes → List QueueEntry → Type ℓ) (name room : Bytes) (q other : List QueueEntry)
    → P name q
    → P room other
    → P room (if bytes_eq name room then q else other)
at_room P name room q other h k = elim (Bool-cases (bytes_eq name room)) [
  | inl e ↦ rw e (subst (λ (n : Bytes). P n q) ((bytes_eq_iff name room).0 e) h)
  | inr e ↦ rw e k
]

-- A room is written back.
module _ (leaving : List ℕ) (name : Bytes) (r : Room) (n : ℕ) (ids : List ℕ) (v : View) where
  abbrev written : View
  written = record v { rooms = insert name r v.rooms; next_entry = n; admitted = ids }

  pub rewritten :
      v.next_entry ≤ n
      → ((id : ℕ) → is_member id v.admitted ≡ true → is_member id ids ≡ true)
      → ((e : QueueEntry) → In e (queue_at name v) → In e r.queue ⊎ MayLeave leaving written e)
      → ((e : QueueEntry)
          → In e r.queue
          → In e (queue_at name v) ⊎ ((v.next_entry ≤ e.id) × (e.id < n)))
      → Later leaving written v
  rewritten counts admits stays comes = record {
    quits = λ h. h;
    same_default = refl;
    has_default = IsThere-insert name v.default_room r v.rooms;
    closed = λ i h. h;
    expelled = λ i h. h;
    address = λ i. refl;
    admits = admits;
    counts = counts;
    logs = λ path. ([], sym (append-nil _));
    stays = λ room e.
        subst
          (λ (q : List QueueEntry). In e (queue_at room v) → In e q ⊎ MayLeave leaving written e)
          (sym (queue_in-insert name room r v.rooms))
          (at_room (λ k q. In e (queue_at k v) → In e q ⊎ MayLeave leaving written e) name room
            r.queue (queue_at room v) (stays e) (λ h. inl h));
    comes = λ room e.
        subst
          (λ (q : List QueueEntry).
            In e q → In e (queue_at room v) ⊎ ((v.next_entry ≤ e.id) × (e.id < n)))
          (sym (queue_in-insert name room r v.rooms))
          (at_room (λ k q. In e q → In e (queue_at k v) ⊎ ((v.next_entry ≤ e.id) × (e.id < n))) name
            room r.queue (queue_at room v) (comes e) (λ h. inl h));
  }

-- A room is written back with the queue that it had.
pub put_room-After :
    {leaving : List ℕ} (name : Bytes) (r : Room) (s : Server)
    → r.queue ≡ queue_at name (view s)
    → After leaving (put_room name r s) s
unfolding put_room
put_room-After {leaving} name r s h = record {
  course =
      rewritten leaving name r s.next_entry s.admitted (view s) (omega arith) (λ id k. k)
        (λ e k. inl (subst (In e) (sym h) k)) (λ e k. inl (subst (In e) h k));
}

pub log_to-After : {leaving : List ℕ} (m : Message) (s : Server) → After leaving (log_to m s) s
unfolding log_to
log_to-After {leaving} m s = record { course = relogged_by s.logger }
  where
    relogged_by :
        (o : Option Logger)
        → Later leaving
            (view (elim o as (λ x. Server) [
              | none ↦ s
              | some l ↦ record s {
                logger = some (log_message m l s.disk).0;
                disk = (log_message m l s.disk).1;
              }
            ]))
            (view s)
    relogged_by none = unchanged
    relogged_by (some l) = relogged _ _ (log_message-Extends m l s.disk)

enqueue-state :
    (m : WriteMsg) (d : Client)
    → ((enqueue m d).done ≡ d.done)
      × ((enqueue m d).ip ≡ d.ip)
      × ((enqueue m d).disconnect_reason ≡ d.disconnect_reason)
unfolding enqueue
enqueue-state m d = ground arith

pub send_to-After :
    {leaving : List ℕ} (c : ℕ) (msg : Bytes) (s : Server) → After leaving (send_to c msg s) s
unfolding send_to send
send_to-After c msg s =
    on_client-After c (send msg) s (λ h. (enqueue-state _ (s.heap c)).0 ∙ h)
      (λ h. ap {B = Bool} (λ (r : Bytes). is_expelled r) (enqueue-state _ (s.heap c)).2 ∙ h)
      (enqueue-state _ (s.heap c)).1

pub prompt_to-After :
    {leaving : List ℕ} (now : Now) (c : ℕ) (s : Server) → After leaving (prompt_to now c s) s
unfolding prompt_to send_prompt
prompt_to-After now c s =
    on_client-After c (send_prompt _) s (λ h. (enqueue-state _ (s.heap c)).0 ∙ h)
      (λ h. ap {B = Bool} (λ (r : Bytes). is_expelled r) (enqueue-state _ (s.heap c)).2 ∙ h)
      (enqueue-state _ (s.heap c)).1
