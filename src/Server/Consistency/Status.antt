-- ===== src/Server/Consistency/Status.antt =====
-- `/mute`, `/unmute`, `/announce`, `/promote` and `/demote` of server/commands.go as to the
-- indexes.
use net_cat.Base.{
  Bytes, bytes_eq, trim_space, length, ℕ, Bool, true, false, ◌≡◌, refl, ◌∙◌, List, [], ◌∷◌, ◌==◌,
  Option, none, some, inl, inr, Bool-cases,
}
use net_cat.Base.Assoc.{insert, delete}
use net_cat.Models.{Message}
use net_cat.Client.{set_muted, set_admin}
use net_cat.Server.{Server, Now, on_client}
use net_cat.Server.Admins.{add_admin, remove_admin}
use net_cat.Server.Commands.Moderate.{
  status_event, mute_client, unmute_client, mute_found, unmute_found, cmd_mute, cmd_unmute,
  record_in_rooms, announce_all, cmd_announce, promote_client, demote_client, promote_found,
  demote_found, cmd_promote, cmd_demote,
}
use net_cat.Server.Index.{index}
use net_cat.Server.Index.Keep.{
  on_client-index, send_to-index, prompt_to-index, record_room_event-index,
  broadcast_all_rooms-index,
}
use net_cat.Server.Consistency.{reply-index}
use net_cat.Server.Consistency.Travel.{save_admins-index}

status_event-index :
    (now : Now) (admin action name : Bytes) (target : ℕ) (s : Server)
    → index (status_event now admin action name target s) ≡ index s
unfolding status_event
status_event-index now admin action name target s =
    broadcast_all_rooms-index _ _ ∙ record_room_event-index _ _ s

set_muted-index : (b : Bool) (c : ℕ) (s : Server) → index (on_client c (set_muted b) s) ≡ index s
set_muted-index b c s = unfold set_muted in on_client-index c (set_muted b) s refl refl

pub set_admin-index :
    (b : Bool) (c : ℕ) (s : Server) → index (on_client c (set_admin b) s) ≡ index s
set_admin-index b c s = unfold set_admin in on_client-index c (set_admin b) s refl refl

add_admin-index : (name : Bytes) (s : Server) → index (add_admin name s) ≡ index s
unfolding add_admin index
add_admin-index name s = save_admins-index (record s { admins = insert name true s.admins })

remove_admin-index : (name : Bytes) (s : Server) → index (remove_admin name s) ≡ index s
unfolding remove_admin index
remove_admin-index name s = save_admins-index (record s { admins = delete name s.admins })

record_in_rooms-index :
    (rooms : List Bytes) (msg : Message) (s : Server)
    → index (record_in_rooms rooms msg s) ≡ index s
unfolding record_in_rooms
record_in_rooms-index [] msg s = refl
record_in_rooms-index (room ∷ rooms) msg s =
    record_in_rooms-index rooms msg _ ∙ record_room_event-index room msg s

module _ (now : Now) (admin name : Bytes) (target : ℕ) (s : Server) where
  pub mute_client-index : index (mute_client now admin name target s) ≡ index s
  unfolding mute_client
  mute_client-index = status_event-index now admin _ name target _ ∙ set_muted-index true target s

  pub unmute_client-index : index (unmute_client now admin name target s) ≡ index s
  unfolding unmute_client
  unmute_client-index =
      status_event-index now admin _ name target _ ∙ set_muted-index false target s

  pub promote_client-index : index (promote_client now admin name target s) ≡ index s
  unfolding promote_client
  promote_client-index =
      status_event-index now admin _ name target _
      ∙ send_to-index target _ _
      ∙ add_admin-index name _
      ∙ set_admin-index true target s

  pub demote_client-index : index (demote_client now admin name target s) ≡ index s
  unfolding demote_client
  demote_client-index =
      status_event-index now admin _ name target _
      ∙ send_to-index target _ _
      ∙ remove_admin-index name _
      ∙ set_admin-index false target s

pub announce_all-index :
    (now : Now) (admin text : Bytes) (s : Server) → index (announce_all now admin text s) ≡ index s
unfolding announce_all
announce_all-index now admin text s = broadcast_all_rooms-index _ _ ∙ record_in_rooms-index _ _ s

pub cmd_announce-index :
    (now : Now) (c : ℕ) (args : Bytes) (s : Server) → index (cmd_announce now c args s) ≡ index s
unfolding cmd_announce
cmd_announce-index now c args s = elim (Bool-cases (length (trim_space args) == 0)) [
  | inl e ↦ rw (e, cmd_announce) (reply-index now c _ s)
  | inr e ↦ rw (e, cmd_announce) (prompt_to-index now c _ ∙ announce_all-index now _ args s)
]

module _ (now : Now) (c : ℕ) (args : Bytes) (s : Server) where
  mute_found-index : (o : Option ℕ) → index (mute_found now c args o s) ≡ index s
  unfolding mute_found
  mute_found-index none = reply-index now c _ s
  mute_found-index (some target) = elim (Bool-cases (s.heap target).muted) [
    | inl e ↦ rw (e, mute_found) (reply-index now c _ s)
    | inr e ↦
        rw (e, mute_found)
          (prompt_to-index now c _ ∙ mute_client-index now (s.heap c).username args target s)
  ]

  pub cmd_mute-index : index (cmd_mute now c args s) ≡ index s
  unfolding cmd_mute
  cmd_mute-index = elim (Bool-cases (bytes_eq args [])) [
    | inl e ↦ rw (e, cmd_mute) (reply-index now c _ s)
    | inr e ↦ rw (e, cmd_mute) (mute_found-index _)
  ]

  unmute_found-index : (o : Option ℕ) → index (unmute_found now c args o s) ≡ index s
  unfolding unmute_found
  unmute_found-index none = reply-index now c _ s
  unmute_found-index (some target) = elim (Bool-cases (s.heap target).muted) [
    | inl e ↦
        rw (e, unmute_found)
          (prompt_to-index now c _ ∙ unmute_client-index now (s.heap c).username args target s)
    | inr e ↦ rw (e, unmute_found) (reply-index now c _ s)
  ]

  pub cmd_unmute-index : index (cmd_unmute now c args s) ≡ index s
  unfolding cmd_unmute
  cmd_unmute-index = elim (Bool-cases (bytes_eq args [])) [
    | inl e ↦ rw (e, cmd_unmute) (reply-index now c _ s)
    | inr e ↦ rw (e, cmd_unmute) (unmute_found-index _)
  ]

  promote_found-index : (o : Option ℕ) → index (promote_found now c args o s) ≡ index s
  unfolding promote_found
  promote_found-index none = reply-index now c _ s
  promote_found-index (some target) = elim (Bool-cases (s.heap target).admin) [
    | inl e ↦ rw (e, promote_found) (reply-index now c _ s)
    | inr e ↦
        rw (e, promote_found)
          (prompt_to-index now c _ ∙ promote_client-index now (s.heap c).username args target s)
  ]

  pub cmd_promote-index : index (cmd_promote now c args s) ≡ index s
  unfolding cmd_promote
  cmd_promote-index = elim (Bool-cases (bytes_eq args [])) [
    | inl e ↦ rw (e, cmd_promote) (reply-index now c _ s)
    | inr e ↦ rw (e, cmd_promote) (promote_found-index _)
  ]

  demote_found-index : (o : Option ℕ) → index (demote_found now c args o s) ≡ index s
  unfolding demote_found
  demote_found-index none = reply-index now c _ s
  demote_found-index (some target) = elim (Bool-cases (s.heap target).admin) [
    | inl e ↦
        rw (e, demote_found)
          (prompt_to-index now c _ ∙ demote_client-index now (s.heap c).username args target s)
    | inr e ↦ rw (e, demote_found) (reply-index now c _ s)
  ]

  pub cmd_demote-index : index (cmd_demote now c args s) ≡ index s
  unfolding cmd_demote
  cmd_demote-index = elim (Bool-cases (bytes_eq args [])) [
    | inl e ↦ rw (e, cmd_demote) (reply-index now c _ s)
    | inr e ↦ rw (e, cmd_demote) (demote_found-index _)
  ]
