-- ===== src/Server/Course/Operate.antt =====
-- The course of the operator's commands, server/operator.go.
use net_cat.Base.{
  Bytes, codes, is_member, ℕ, true, ◌≡◌, refl, List, [], ◌∷◌, Option, none, some, inl, inr,
  Bool-cases,
}
use net_cat.Server.{Server, Now}
use net_cat.Server.Moderation.{add_kick_cooldown, add_ban_ip}
use net_cat.Server.Rooms.{is_empty, remove_from_all_room_queues_by_ip}
use net_cat.Server.Operator.{
  operator_send, operator_lines, operator_name, operator_kick_queued, operator_kick_found,
  operator_cmd_kick, operator_ban_queued, operator_ban_found, operator_cmd_ban, operator_mute_found,
  operator_cmd_mute, operator_unmute_found, operator_cmd_unmute, operator_cmd_announce,
  operator_promote_found, operator_cmd_promote, operator_demote_found, operator_cmd_demote,
}
use net_cat.Server.Course.{After, same, unseen, ◌⨾◌, either}
use net_cat.Server.Course.Removal.Hosts.{remove_from_all_room_queues_by_ip-After}
use net_cat.Server.Course.Moderate.{
  all_closed, close_queued-After, kick_client-After, ban_client-After,
}
use net_cat.Server.Course.Status.{
  mute_client-After, unmute_client-After, promote_client-After, demote_client-After,
  announce_all-After,
}

pub said : (msg : Bytes) (s : Server) → After [] (operator_send msg s) s
unfolding operator_send
said msg s = unseen refl

pub operator_lines-After : (ls : List Bytes) (s : Server) → After [] (operator_lines ls s) s
unfolding operator_lines
operator_lines-After [] s = same
operator_lines-After (l ∷ ls) s = operator_lines-After ls _ ⨾ said l s

-- Where no queued client is at the address, nothing is taken out of the queues.
none_queued :
    (ip : Bytes) (s : Server)
    → (let (queued, t) = remove_from_all_room_queues_by_ip ip s in
        is_empty queued ≡ true → After [] t s)
none_queued ip s e =
    let (queued, t) = remove_from_all_room_queues_by_ip ip s in
    all_closed queued t s (λ c h. absurd (empty queued c e h))
      (remove_from_all_room_queues_by_ip-After ip s)
  where
    empty : (q : List ℕ) (c : ℕ) → is_empty q ≡ true → is_member c q ≡ true → ⊥
    empty [] c e h = cc
    empty (x ∷ q) c e h = cc

-- A handler of a command.
unfoldable pub Runs : (Now → Bytes → Server → Server) → Type 0
Runs f = (now : Now) (args : Bytes) (s : Server) → After [] (f now args s) s

operator_kick_queued-After : Runs operator_kick_queued
unfolding Runs operator_kick_queued add_kick_cooldown
operator_kick_queued-After now args s =
    let (queued, t) = remove_from_all_room_queues_by_ip args s in
    elim (Bool-cases (is_empty queued)) [
      | inl e ↦ rw (operator_kick_queued, e) (said _ _ ⨾ none_queued args s e)
      | inr e ↦
          rw (operator_kick_queued, e)
            (said _ _
              ⨾ unseen refl
              ⨾ close_queued-After args (codes "You have been kicked by Server.\n") s)
    ]

operator_ban_queued-After : (args : Bytes) (s : Server) → After [] (operator_ban_queued args s) s
unfolding operator_ban_queued add_ban_ip
operator_ban_queued-After args s =
    let (queued, t) = remove_from_all_room_queues_by_ip args s in
    elim (Bool-cases (is_empty queued)) [
      | inl e ↦ rw (operator_ban_queued, e) (said _ _ ⨾ none_queued args s e)
      | inr e ↦
          rw (operator_ban_queued, e)
            (said _ _
              ⨾ unseen refl
              ⨾ close_queued-After args (codes "You have been banned by Server.\n") s)
    ]

operator_kick_found-After :
    (now : Now) (args : Bytes) (o : Option ℕ) (s : Server)
    → After [] (operator_kick_found now args o s) s
unfolding operator_kick_found
operator_kick_found-After now args none s = unfold Runs in operator_kick_queued-After now args s
operator_kick_found-After now args (some target) s =
    said _ _ ⨾ kick_client-After [] now operator_name args target s

pub operator_cmd_kick-After : Runs operator_cmd_kick
unfolding Runs operator_cmd_kick
operator_cmd_kick-After now args s = either _ (said _ s) (operator_kick_found-After now args _ s)

operator_ban_found-After :
    (now : Now) (args : Bytes) (o : Option ℕ) (s : Server)
    → After [] (operator_ban_found now args o s) s
unfolding operator_ban_found
operator_ban_found-After now args none s = operator_ban_queued-After args s
operator_ban_found-After now args (some target) s =
    said _ _ ⨾ ban_client-After now operator_name [] args target s

pub operator_cmd_ban-After : Runs operator_cmd_ban
unfolding Runs operator_cmd_ban
operator_cmd_ban-After now args s = either _ (said _ s) (operator_ban_found-After now args _ s)

operator_mute_found-After :
    (now : Now) (args : Bytes) (o : Option ℕ) (s : Server)
    → After [] (operator_mute_found now args o s) s
unfolding operator_mute_found
operator_mute_found-After now args none s = said _ s
operator_mute_found-After now args (some target) s =
    either _ (said _ s) (said _ _ ⨾ mute_client-After [] now operator_name args target s)

pub operator_cmd_mute-After : Runs operator_cmd_mute
unfolding Runs operator_cmd_mute
operator_cmd_mute-After now args s = either _ (said _ s) (operator_mute_found-After now args _ s)

operator_unmute_found-After :
    (now : Now) (args : Bytes) (o : Option ℕ) (s : Server)
    → After [] (operator_unmute_found now args o s) s
unfolding operator_unmute_found
operator_unmute_found-After now args none s = said _ s
operator_unmute_found-After now args (some target) s =
    either _ (said _ s) (said _ _ ⨾ unmute_client-After [] now operator_name args target s)

pub operator_cmd_unmute-After : Runs operator_cmd_unmute
unfolding Runs operator_cmd_unmute
operator_cmd_unmute-After now args s =
    either _ (said _ s) (operator_unmute_found-After now args _ s)

operator_promote_found-After :
    (now : Now) (args : Bytes) (o : Option ℕ) (s : Server)
    → After [] (operator_promote_found now args o s) s
unfolding operator_promote_found
operator_promote_found-After now args none s = said _ s
operator_promote_found-After now args (some target) s =
    either _ (said _ s) (said _ _ ⨾ promote_client-After [] now operator_name args target s)

pub operator_cmd_promote-After : Runs operator_cmd_promote
unfolding Runs operator_cmd_promote
operator_cmd_promote-After now args s =
    either _ (said _ s) (operator_promote_found-After now args _ s)

operator_demote_found-After :
    (now : Now) (args : Bytes) (o : Option ℕ) (s : Server)
    → After [] (operator_demote_found now args o s) s
unfolding operator_demote_found
operator_demote_found-After now args none s = said _ s
operator_demote_found-After now args (some target) s =
    either _ (said _ s) (said _ _ ⨾ demote_client-After [] now operator_name args target s)

pub operator_cmd_demote-After : Runs operator_cmd_demote
unfolding Runs operator_cmd_demote
operator_cmd_demote-After now args s =
    either _ (said _ s) (operator_demote_found-After now args _ s)

pub operator_cmd_announce-After : Runs operator_cmd_announce
unfolding Runs operator_cmd_announce
operator_cmd_announce-After now args s =
    either _ (said _ s) (said _ _ ⨾ announce_all-After [] now operator_name args s)
