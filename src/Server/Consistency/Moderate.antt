-- ===== src/Server/Consistency/Moderate.antt =====
-- `/kick` and `/ban` of server/commands.go as to the indexes, with the steps that the operator's
-- commands share.
use net_cat.Base.{
  Bytes, codes, bytes_eq, ℕ, zero, suc, ◌≡◌, refl, sym, ◌∙◌, subst, List, [], ◌∷◌, Option, none,
  some, inl, inr, Bool-cases, Option-cases,
}
use net_cat.Base.Assoc.{Assoc, lookup}
use net_cat.Client.{close, force_disconnect_reason}
use net_cat.Server.{Server, Now, on_client, send_to}
use net_cat.Server.Clients.{remove_client}
use net_cat.Server.Moderation.{add_kick_cooldown, add_ban_ip}
use net_cat.Server.Commands.Moderate.{
  moderation_event, expel, kick_client, kick_found, cmd_kick, ban_collateral, close_all,
  admit_times, admit_opened, ban_client, ban_found, cmd_ban,
}
use net_cat.Server.Index.{index, IsConsistent}
use net_cat.Server.Index.Keep.{
  on_client-index, send_to-index, prompt_to-index, record_room_event-index, broadcast_room-index,
}
use net_cat.Server.Index.Keep.Queues.{
  admit_from_room_queue-index, remove_from_all_room_queues_by_ip-index,
}
use net_cat.Server.Index.Spec.{drop_name-IsConsistent}
use net_cat.Server.Index.Change.{remove_client-drop_name}
use net_cat.Server.Consistency.{kept, reply-index}

pub force_disconnect_reason-index :
    (c : ℕ) (reason : Bytes) (s : Server)
    → index (on_client c (force_disconnect_reason reason) s) ≡ index s
force_disconnect_reason-index c reason s =
    unfold force_disconnect_reason in on_client-index c (force_disconnect_reason reason) s refl refl

pub close-index : (c : ℕ) (s : Server) → index (on_client c close s) ≡ index s
close-index c s = unfold close in on_client-index c close s refl refl

-- Whoever bears the name loses it.
pub remove_client-IsConsistent :
    (name : Bytes) (s : Server)
    → IsConsistent (index s)
    → IsConsistent (index (remove_client name s))
unfolding remove_client index
remove_client-IsConsistent name s v = elim (Option-cases (lookup name s.clients)) [
  | inl e ↦ rw (e, remove_client) v
  | inr (c, e) ↦
      subst IsConsistent (sym (remove_client-drop_name c name s v e).0)
        (drop_name-IsConsistent (index s) v c name e)
]

moderation_event-index :
    (now : Now) (room target action admin : Bytes) (s : Server)
    → index (moderation_event now room target action admin s) ≡ index s
unfolding moderation_event
moderation_event-index now room target action admin s =
    broadcast_room-index _ _ _ _ ∙ record_room_event-index _ _ s

expel-IsConsistent :
    (now : Now) (admin action name : Bytes) (target : ℕ) (s : Server)
    → IsConsistent (index s)
    → IsConsistent (index (expel now admin action name target s))
unfolding expel
expel-IsConsistent now admin action name target s v =
    kept _ _
      (close-index target _
        ∙ send_to-index target _ _
        ∙ moderation_event-index now _ name action admin _)
      (remove_client-IsConsistent name (on_client target (force_disconnect_reason action) s)
        (kept s _ (force_disconnect_reason-index target action s) v))

pub add_kick_cooldown-index :
    (now : Now) (ip : Bytes) (s : Server) → index (add_kick_cooldown now ip s) ≡ index s
unfolding add_kick_cooldown index
add_kick_cooldown-index now ip s = refl

pub add_ban_ip-index : (ip : Bytes) (s : Server) → index (add_ban_ip ip s) ≡ index s
unfolding add_ban_ip index
add_ban_ip-index ip s = refl

pub kick_client-IsConsistent :
    (now : Now) (admin name : Bytes) (target : ℕ) (s : Server)
    → IsConsistent (index s)
    → IsConsistent (index (kick_client now admin name target s))
unfolding kick_client
kick_client-IsConsistent now admin name target s v =
    kept (expel now admin (codes "kicked") name target s) _
      (admit_from_room_queue-index _ _ ∙ add_kick_cooldown-index now _ _)
      (expel-IsConsistent now admin (codes "kicked") name target s v)

ban_collateral-IsConsistent :
    (now : Now) (admin : Bytes) (ccs : List ℕ) (opened : Assoc ℕ) (s : Server)
    → IsConsistent (index s)
    → IsConsistent (index (ban_collateral now admin ccs opened s).1)
unfolding ban_collateral
ban_collateral-IsConsistent now admin [] opened s v = v
ban_collateral-IsConsistent now admin (cc ∷ ccs) opened s v =
    ban_collateral-IsConsistent now admin ccs _ _
      (expel-IsConsistent now admin (codes "banned") (s.heap cc).username cc s v)

pub close_all-index :
    (msg : Bytes) (cs : List ℕ) (s : Server) → index (close_all msg cs s) ≡ index s
unfolding close_all
close_all-index msg [] s = refl
close_all-index msg (c ∷ cs) s =
    close_all-index msg cs _ ∙ close-index c (send_to c msg s) ∙ send_to-index c msg s

admit_times-index : (n : ℕ) (room : Bytes) (s : Server) → index (admit_times n room s) ≡ index s
unfolding admit_times
admit_times-index zero room s = refl
admit_times-index (suc n) room s = admit_times-index n room _ ∙ admit_from_room_queue-index room s

admit_opened-index : (opened : Assoc ℕ) (s : Server) → index (admit_opened opened s) ≡ index s
unfolding admit_opened
admit_opened-index [] s = refl
admit_opened-index ((room, n) ∷ opened) s = admit_opened-index opened _ ∙ admit_times-index n room s

pub ban_client-IsConsistent :
    (now : Now) (admin exclude name : Bytes) (target : ℕ) (s : Server)
    → IsConsistent (index s)
    → IsConsistent (index (ban_client now admin exclude name target s))
unfolding ban_client
ban_client-IsConsistent now admin exclude name target s v =
    kept _ _
      (admit_opened-index _ _
        ∙ close_all-index _ _ _
        ∙ remove_from_all_room_queues_by_ip-index (s.heap target).ip _)
      (ban_collateral-IsConsistent now admin _ _ _ (
        kept (expel now admin (codes "banned") name target s) _ (add_ban_ip-index _ _)
          (expel-IsConsistent now admin (codes "banned") name target s v)))

module _ (now : Now) (c : ℕ) (args : Bytes) (s : Server) (v : IsConsistent (index s)) where
  kick_found-IsConsistent : (o : Option ℕ) → IsConsistent (index (kick_found now c args o s))
  unfolding kick_found
  kick_found-IsConsistent none = kept s _ (reply-index now c _ s) v
  kick_found-IsConsistent (some target) =
      elim (Bool-cases (bytes_eq (s.heap target).room (s.heap c).room)) [
        | inl e ↦
            rw (e, kick_found)
              (kept _ _ (prompt_to-index now c _)
                (kick_client-IsConsistent now (s.heap c).username args target s v))
        | inr e ↦ rw (e, kick_found) (kept s _ (reply-index now c _ s) v)
      ]

  pub cmd_kick-IsConsistent : IsConsistent (index (cmd_kick now c args s))
  unfolding cmd_kick
  cmd_kick-IsConsistent = elim (Bool-cases (bytes_eq args [])) [
    | inl e ↦ rw (e, cmd_kick) (kept s _ (reply-index now c _ s) v)
    | inr e ↦ rw (e, cmd_kick) (kick_found-IsConsistent _)
  ]

  ban_found-IsConsistent : (o : Option ℕ) → IsConsistent (index (ban_found now c args o s))
  unfolding ban_found
  ban_found-IsConsistent none = kept s _ (reply-index now c _ s) v
  ban_found-IsConsistent (some target) =
      kept _ _ (prompt_to-index now c _)
        (ban_client-IsConsistent now (s.heap c).username (s.heap c).username args target s v)

  pub cmd_ban-IsConsistent : IsConsistent (index (cmd_ban now c args s))
  unfolding cmd_ban
  cmd_ban-IsConsistent = elim (Bool-cases (bytes_eq args [])) [
    | inl e ↦ rw (e, cmd_ban) (kept s _ (reply-index now c _ s) v)
    | inr e ↦ rw (e, cmd_ban) (ban_found-IsConsistent _)
  ]
