-- ===== src/Server/Consistency/Operate.antt =====
-- The commands of server/operator.go as to the indexes.
use net_cat.Base.{
  Bytes, bytes_eq, trim_space, length, ℕ, ◌≡◌, refl, ◌∙◌, List, [], ◌∷◌, ◌==◌, Option, none, some,
  inl, inr, Bool-cases,
}
use net_cat.Server.{Server, Now}
use net_cat.Server.Rooms.{is_empty, remove_from_all_room_queues_by_ip}
use net_cat.Server.Operator.{
  operator_send, operator_lines, operator_name, operator_cmd_kick, operator_cmd_ban,
  operator_cmd_mute, operator_cmd_unmute, operator_cmd_announce, operator_cmd_promote,
  operator_cmd_demote, operator_kick_queued, operator_kick_found, operator_ban_queued,
  operator_ban_found, operator_mute_found, operator_unmute_found, operator_promote_found,
  operator_demote_found,
}
use net_cat.Server.Index.{index, IsConsistent}
use net_cat.Server.Index.Keep.Queues.{remove_from_all_room_queues_by_ip-index}
use net_cat.Server.Consistency.{kept}
use net_cat.Server.Consistency.Moderate.{
  kick_client-IsConsistent, ban_client-IsConsistent, close_all-index, add_kick_cooldown-index,
  add_ban_ip-index,
}
use net_cat.Server.Consistency.Status.{
  mute_client-index, unmute_client-index, promote_client-index, demote_client-index,
  announce_all-index,
}

operator_send-index : (msg : Bytes) (s : Server) → index (operator_send msg s) ≡ index s
unfolding operator_send index
operator_send-index msg s = refl

pub operator_lines-index : (ls : List Bytes) (s : Server) → index (operator_lines ls s) ≡ index s
unfolding operator_lines
operator_lines-index [] s = refl
operator_lines-index (l ∷ ls) s = operator_lines-index ls _ ∙ operator_send-index l s

-- A handler that keeps the indexes consistent.
abbrev pub Keeps : (Now → Bytes → Server → Server) → Type 0
Keeps f =
    (now : Now) (args : Bytes) (s : Server)
    → IsConsistent (index s)
    → IsConsistent (index (f now args s))

pub said :
    (msg : Bytes) (s : Server) → IsConsistent (index s) → IsConsistent (index (operator_send msg s))
said msg s v = kept s _ (operator_send-index msg s) v

operator_kick_queued-IsConsistent : Keeps operator_kick_queued
unfolding operator_kick_queued
operator_kick_queued-IsConsistent now args s v =
    let r = remove_from_all_room_queues_by_ip args s in
    let same : index r.1 ≡ index s = remove_from_all_room_queues_by_ip-index args s in
    elim (Bool-cases (is_empty r.0)) [
      | inl e ↦ rw (operator_kick_queued, e) (kept s _ (operator_send-index _ _ ∙ same) v)
      | inr e ↦
          rw (operator_kick_queued, e)
            (kept s _
              (operator_send-index _ _
                ∙ add_kick_cooldown-index now args _
                ∙ close_all-index _ r.0 r.1
                ∙ same)
              v)
    ]

operator_kick_found-IsConsistent :
    (now : Now) (args : Bytes) (o : Option ℕ) (s : Server)
    → IsConsistent (index s)
    → IsConsistent (index (operator_kick_found now args o s))
unfolding operator_kick_found
operator_kick_found-IsConsistent now args none s v = operator_kick_queued-IsConsistent now args s v
operator_kick_found-IsConsistent now args (some target) s v =
    said _ _ (kick_client-IsConsistent now operator_name args target s v)

pub operator_cmd_kick-IsConsistent : Keeps operator_cmd_kick
unfolding operator_cmd_kick
operator_cmd_kick-IsConsistent now args s v = elim (Bool-cases (bytes_eq args [])) [
  | inl e ↦ rw (e, operator_cmd_kick) (said _ s v)
  | inr e ↦ rw (e, operator_cmd_kick) (operator_kick_found-IsConsistent now args _ s v)
]

operator_ban_queued-IsConsistent :
    (args : Bytes) (s : Server)
    → IsConsistent (index s)
    → IsConsistent (index (operator_ban_queued args s))
unfolding operator_ban_queued
operator_ban_queued-IsConsistent args s v =
    let r = remove_from_all_room_queues_by_ip args s in
    let same : index r.1 ≡ index s = remove_from_all_room_queues_by_ip-index args s in
    elim (Bool-cases (is_empty r.0)) [
      | inl e ↦ rw (operator_ban_queued, e) (kept s _ (operator_send-index _ _ ∙ same) v)
      | inr e ↦
          rw (operator_ban_queued, e)
            (kept s _
              (operator_send-index _ _ ∙ add_ban_ip-index args _ ∙ close_all-index _ r.0 r.1 ∙ same)
              v)
    ]

operator_ban_found-IsConsistent :
    (now : Now) (args : Bytes) (o : Option ℕ) (s : Server)
    → IsConsistent (index s)
    → IsConsistent (index (operator_ban_found now args o s))
unfolding operator_ban_found
operator_ban_found-IsConsistent now args none s v = operator_ban_queued-IsConsistent args s v
operator_ban_found-IsConsistent now args (some target) s v =
    said _ _ (ban_client-IsConsistent now operator_name [] args target s v)

pub operator_cmd_ban-IsConsistent : Keeps operator_cmd_ban
unfolding operator_cmd_ban
operator_cmd_ban-IsConsistent now args s v = elim (Bool-cases (bytes_eq args [])) [
  | inl e ↦ rw (e, operator_cmd_ban) (said _ s v)
  | inr e ↦ rw (e, operator_cmd_ban) (operator_ban_found-IsConsistent now args _ s v)
]

pub operator_cmd_announce-IsConsistent : Keeps operator_cmd_announce
unfolding operator_cmd_announce
operator_cmd_announce-IsConsistent now args s v =
    elim (Bool-cases (length (trim_space args) == 0)) [
      | inl e ↦ rw (e, operator_cmd_announce) (said _ s v)
      | inr e ↦
          rw (e, operator_cmd_announce)
            (said _ _ (kept s _ (announce_all-index now operator_name args s) v))
    ]

operator_mute_found-IsConsistent :
    (now : Now) (args : Bytes) (o : Option ℕ) (s : Server)
    → IsConsistent (index s)
    → IsConsistent (index (operator_mute_found now args o s))
unfolding operator_mute_found
operator_mute_found-IsConsistent now args none s v = said _ s v
operator_mute_found-IsConsistent now args (some target) s v =
    elim (Bool-cases (s.heap target).muted) [
      | inl e ↦ rw (e, operator_mute_found) (said _ s v)
      | inr e ↦
          rw (e, operator_mute_found)
            (said _ _ (kept s _ (mute_client-index now operator_name args target s) v))
    ]

pub operator_cmd_mute-IsConsistent : Keeps operator_cmd_mute
unfolding operator_cmd_mute
operator_cmd_mute-IsConsistent now args s v = elim (Bool-cases (bytes_eq args [])) [
  | inl e ↦ rw (e, operator_cmd_mute) (said _ s v)
  | inr e ↦ rw (e, operator_cmd_mute) (operator_mute_found-IsConsistent now args _ s v)
]

operator_unmute_found-IsConsistent :
    (now : Now) (args : Bytes) (o : Option ℕ) (s : Server)
    → IsConsistent (index s)
    → IsConsistent (index (operator_unmute_found now args o s))
unfolding operator_unmute_found
operator_unmute_found-IsConsistent now args none s v = said _ s v
operator_unmute_found-IsConsistent now args (some target) s v =
    elim (Bool-cases (s.heap target).muted) [
      | inl e ↦
          rw (e, operator_unmute_found)
            (said _ _ (kept s _ (unmute_client-index now operator_name args target s) v))
      | inr e ↦ rw (e, operator_unmute_found) (said _ s v)
    ]

pub operator_cmd_unmute-IsConsistent : Keeps operator_cmd_unmute
unfolding operator_cmd_unmute
operator_cmd_unmute-IsConsistent now args s v = elim (Bool-cases (bytes_eq args [])) [
  | inl e ↦ rw (e, operator_cmd_unmute) (said _ s v)
  | inr e ↦ rw (e, operator_cmd_unmute) (operator_unmute_found-IsConsistent now args _ s v)
]

operator_promote_found-IsConsistent :
    (now : Now) (args : Bytes) (o : Option ℕ) (s : Server)
    → IsConsistent (index s)
    → IsConsistent (index (operator_promote_found now args o s))
unfolding operator_promote_found
operator_promote_found-IsConsistent now args none s v = said _ s v
operator_promote_found-IsConsistent now args (some target) s v =
    elim (Bool-cases (s.heap target).admin) [
      | inl e ↦ rw (e, operator_promote_found) (said _ s v)
      | inr e ↦
          rw (e, operator_promote_found)
            (said _ _ (kept s _ (promote_client-index now operator_name args target s) v))
    ]

pub operator_cmd_promote-IsConsistent : Keeps operator_cmd_promote
unfolding operator_cmd_promote
operator_cmd_promote-IsConsistent now args s v = elim (Bool-cases (bytes_eq args [])) [
  | inl e ↦ rw (e, operator_cmd_promote) (said _ s v)
  | inr e ↦ rw (e, operator_cmd_promote) (operator_promote_found-IsConsistent now args _ s v)
]

operator_demote_found-IsConsistent :
    (now : Now) (args : Bytes) (o : Option ℕ) (s : Server)
    → IsConsistent (index s)
    → IsConsistent (index (operator_demote_found now args o s))
unfolding operator_demote_found
operator_demote_found-IsConsistent now args none s v = said _ s v
operator_demote_found-IsConsistent now args (some target) s v =
    elim (Bool-cases (s.heap target).admin) [
      | inl e ↦
          rw (e, operator_demote_found)
            (said _ _ (kept s _ (demote_client-index now operator_name args target s) v))
      | inr e ↦ rw (e, operator_demote_found) (said _ s v)
    ]

pub operator_cmd_demote-IsConsistent : Keeps operator_cmd_demote
unfolding operator_cmd_demote
operator_cmd_demote-IsConsistent now args s v = elim (Bool-cases (bytes_eq args [])) [
  | inl e ↦ rw (e, operator_cmd_demote) (said _ s v)
  | inr e ↦ rw (e, operator_cmd_demote) (operator_demote_found-IsConsistent now args _ s v)
]
