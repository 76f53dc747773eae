-- ===== src/Server/Course/Moderate.antt =====
-- The course of the moderating commands of server/commands.go.
use net_cat.Base.{
  codes, Bytes, bytes_eq, is_member, ◌==◌, ==_iff, true, ℕ, zero, suc, ◌≡◌, refl, List, [], ◌∷◌,
  Option, none, some, inl, inr, ◌⊎◌, Option-cases, Bool-cases, arith,
}
use net_cat.Base.Assoc.{Assoc, lookup}
use net_cat.Client.{close, force_disconnect_reason}
use net_cat.Server.{Server, Now, QueueEntry, on_client}
use net_cat.Server.Clients.{remove_client, drop_client}
use net_cat.Server.Moderation.{add_kick_cooldown, add_ban_ip}
use net_cat.Server.Rooms.{remove_from_all_room_queues_by_ip}
use net_cat.Server.Commands.Moderate.{
  moderation_event, expel, kick_client, kick_found, cmd_kick, ban_collateral, close_all,
  admit_times, admit_opened, ban_client, ban_found, cmd_ban,
}
use net_cat.Server.Course.{
  is_expelled, view, queue_at, In, MayLeave, After, same, unseen, ◌⨾◌, either,
}
use net_cat.Server.Course.Keep.{on_client-After, send_to-After, prompt_to-After}
use net_cat.Server.Course.Rooms.{record_room_event-After, broadcast_room-After, drop_member-After}
use net_cat.Server.Course.Queues.{admit_from_room_queue-After}
use net_cat.Server.Course.Removal.Hosts.{remove_from_all_room_queues_by_ip-After}
use net_cat.Server.Course.Inform.{reply-After}

-- A step that closes all that leave has none left that leave.
pub all_closed :
    (leaving : List ℕ) (t s : Server)
    → ((c : ℕ) → is_member c leaving ≡ true → (t.heap c).done ≡ true)
    → After leaving t s
    → After [] t s
all_closed leaving t s closed h = record {
  course = record {
    quits = h.course.quits;
    same_default = h.course.same_default;
    has_default = h.course.has_default;
    closed = h.course.closed;
    expelled = h.course.expelled;
    address = h.course.address;
    admits = h.course.admits;
    counts = h.course.counts;
    logs = h.course.logs;
    stays = λ room e k. left e room (h.course.stays room e k);
    comes = h.course.comes;
  };
}
  where
    left :
        (e : QueueEntry) (room : Bytes)
        → In e (queue_at room (view t)) ⊎ MayLeave leaving (view t) e
        → In e (queue_at room (view t)) ⊎ MayLeave [] (view t) e
    left e room (inl k) = inl k
    left e room (inr (inl a)) = inr (inl a)
    left e room (inr (inr (inl d))) = inr (inr (inl d))
    left e room (inr (inr (inr m))) = inr (inr (inl (closed e.client m)))

kicked_out : is_expelled (codes "kicked") ≡ true
unfolding codes bytes_eq
kicked_out = refl

banned_out : is_expelled (codes "banned") ≡ true
unfolding codes bytes_eq
banned_out = refl

module _ (leaving : List ℕ) where
  pub close-After : (c : ℕ) (s : Server) → After leaving (on_client c close s) s
  unfolding close
  close-After c s = on_client-After c close s (λ h. refl) (λ h. h) refl

  pub remove_client-After :
      (username : Bytes) (s : Server) → After leaving (remove_client username s) s
  unfolding remove_client drop_client
  remove_client-After username s = elim (Option-cases (lookup username s.clients)) [
    | inl e ↦ rw (e, remove_client) same
    | inr (c, e) ↦ rw (e, remove_client) (unseen refl ⨾ drop_member-After c username s)
  ]

  moderation_event-After :
      (now : Now) (room target action admin : Bytes) (s : Server)
      → After leaving (moderation_event now room target action admin s) s
  unfolding moderation_event
  moderation_event-After now room target action admin s =
      broadcast_room-After room _ _ _ ⨾ record_room_event-After room _ s

  expel-After :
      (now : Now) (admin action name : Bytes) (target : ℕ) (s : Server)
      → is_expelled action ≡ true
      → After leaving (expel now admin action name target s) s
  unfolding expel force_disconnect_reason
  expel-After now admin action name target s out =
      close-After target _
      ⨾ send_to-After target _ _
      ⨾ moderation_event-After now _ _ _ _ _
      ⨾ remove_client-After name _
      ⨾ on_client-After target (force_disconnect_reason action) s (λ h. h) (λ h. out) refl

  pub kick_client-After :
      (now : Now) (admin name : Bytes) (target : ℕ) (s : Server)
      → After leaving (kick_client now admin name target s) s
  unfolding kick_client add_kick_cooldown
  kick_client-After now admin name target s =
      admit_from_room_queue-After _ _
      ⨾ unseen refl
      ⨾ expel-After now admin _ name target s kicked_out

  ban_collateral-After :
      (now : Now) (admin : Bytes) (cs : List ℕ) (opened : Assoc ℕ) (s : Server)
      → After leaving (ban_collateral now admin cs opened s).1 s
  unfolding ban_collateral
  ban_collateral-After now admin [] opened s = same
  ban_collateral-After now admin (c ∷ cs) opened s =
      ban_collateral-After now admin cs _ _ ⨾ expel-After now admin _ _ c s banned_out

  close_all-After : (msg : Bytes) (cs : List ℕ) (s : Server) → After leaving (close_all msg cs s) s
  unfolding close_all
  close_all-After msg [] s = same
  close_all-After msg (c ∷ cs) s =
      close_all-After msg cs _ ⨾ close-After c _ ⨾ send_to-After c msg s

  admit_times-After : (n : ℕ) (room : Bytes) (s : Server) → After leaving (admit_times n room s) s
  unfolding admit_times
  admit_times-After zero room s = same
  admit_times-After (suc n) room s = admit_times-After n room _ ⨾ admit_from_room_queue-After room s

  admit_opened-After : (opened : Assoc ℕ) (s : Server) → After leaving (admit_opened opened s) s
  unfolding admit_opened
  admit_opened-After [] s = same
  admit_opened-After ((room, n) ∷ opened) s =
      admit_opened-After opened _ ⨾ admit_times-After n room s

close_all-closes :
    (msg : Bytes) (c : ℕ) (cs : List ℕ) (s : Server)
    → is_member c cs ≡ true
    → ((close_all msg cs s).heap c).done ≡ true
unfolding close_all
close_all-closes msg c [] s h = cc
close_all-closes msg c (d ∷ cs) s h = elim (Bool-cases (d == c)) [
  | inl e ↦
      (close_all-After [] msg cs _).course.closed c
        (unfold on_client close in ground (arith, ==_iff d c))
  | inr e ↦ close_all-closes msg c cs _ (ground arith)
]

-- The queued clients at an address are taken out of the queues and closed.
pub close_queued-After :
    (ip msg : Bytes) (s : Server)
    → (let (queued, emptied) = remove_from_all_room_queues_by_ip ip s in
        After [] (close_all msg queued emptied) s)
close_queued-After ip msg s =
    let (queued, emptied) = remove_from_all_room_queues_by_ip ip s in
    all_closed queued _ s (λ c h. close_all-closes msg c queued emptied h)
      (close_all-After queued msg queued emptied ⨾ remove_from_all_room_queues_by_ip-After ip s)

pub ban_client-After :
    (now : Now) (admin exclude name : Bytes) (target : ℕ) (s : Server)
    → After [] (ban_client now admin exclude name target s) s
unfolding ban_client add_ban_ip
ban_client-After now admin exclude name target s =
    admit_opened-After [] _ _
    ⨾ close_queued-After (s.heap target).ip _ _
    ⨾ ban_collateral-After [] now admin _ _ _
    ⨾ unseen refl
    ⨾ expel-After [] now admin _ name target s banned_out

kick_found-After :
    (now : Now) (c : ℕ) (args : Bytes) (o : Option ℕ) (s : Server)
    → After [] (kick_found now c args o s) s
unfolding kick_found
kick_found-After now c args none s = reply-After [] now c _ s
kick_found-After now c args (some target) s =
    either _ (reply-After [] now c _ s)
      (prompt_to-After now c _ ⨾ kick_client-After [] now _ args target s)

pub cmd_kick-After :
    (now : Now) (c : ℕ) (args : Bytes) (s : Server) → After [] (cmd_kick now c args s) s
unfolding cmd_kick
cmd_kick-After now c args s = either _ (reply-After [] now c _ s) (kick_found-After now c args _ s)

ban_found-After :
    (now : Now) (c : ℕ) (args : Bytes) (o : Option ℕ) (s : Server)
    → After [] (ban_found now c args o s) s
unfolding ban_found
ban_found-After now c args none s = reply-After [] now c _ s
ban_found-After now c args (some target) s =
    prompt_to-After now c _ ⨾ ban_client-After now _ _ args target s

pub cmd_ban-After :
    (now : Now) (c : ℕ) (args : Bytes) (s : Server) → After [] (cmd_ban now c args s) s
unfolding cmd_ban
cmd_ban-After now c args s = either _ (reply-After [] now c _ s) (ban_found-After now c args _ s)
