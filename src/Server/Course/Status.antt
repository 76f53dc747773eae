-- ===== src/Server/Course/Status.antt =====
-- The course of `/mute`, `/unmute`, `/promote`, `/demote` and `/announce`, server/commands.go.
use net_cat.Base.{Bytes, ℕ, true, false, refl, List, [], ◌∷◌, Option, none, some}
use net_cat.Models.{Message}
use net_cat.Client.{set_muted, set_admin}
use net_cat.Server.{Server, Now}
use net_cat.Server.Admins.{add_admin, remove_admin}
use net_cat.Server.Commands.Moderate.{
  status_event, mute_client, unmute_client, mute_found, cmd_mute, unmute_found, cmd_unmute,
  record_in_rooms, announce_all, cmd_announce, promote_client, demote_client, promote_found,
  cmd_promote, demote_found, cmd_demote,
}
use net_cat.Server.Course.{After, same, unseen, ◌⨾◌, either}
use net_cat.Server.Course.Keep.{on_client-After, send_to-After, prompt_to-After}
use net_cat.Server.Course.Rooms.{record_room_event-After, broadcast_all_rooms-After}
use net_cat.Server.Course.Inform.{reply-After}
use net_cat.Server.Course.Travel.{save_admins-After}

module _ (leaving : List ℕ) where
  status_event-After :
      (now : Now) (admin action name : Bytes) (target : ℕ) (s : Server)
      → After leaving (status_event now admin action name target s) s
  unfolding status_event
  status_event-After now admin action name target s =
      broadcast_all_rooms-After _ _ ⨾ record_room_event-After _ _ s

  pub mute_client-After :
      (now : Now) (admin name : Bytes) (target : ℕ) (s : Server)
      → After leaving (mute_client now admin name target s) s
  unfolding mute_client set_muted
  mute_client-After now admin name target s =
      status_event-After now admin _ name target _
      ⨾ on_client-After target (set_muted true) s (λ h. h) (λ h. h) refl

  mute_found-After :
      (now : Now) (c : ℕ) (args : Bytes) (o : Option ℕ) (s : Server)
      → After leaving (mute_found now c args o s) s
  unfolding mute_found
  mute_found-After now c args none s = reply-After leaving now c _ s
  mute_found-After now c args (some target) s =
      either _ (reply-After leaving now c _ s)
        (prompt_to-After now c _ ⨾ mute_client-After now _ args target s)

  pub cmd_mute-After :
      (now : Now) (c : ℕ) (args : Bytes) (s : Server) → After leaving (cmd_mute now c args s) s
  unfolding cmd_mute
  cmd_mute-After now c args s =
      either _ (reply-After leaving now c _ s) (mute_found-After now c args _ s)

  pub unmute_client-After :
      (now : Now) (admin name : Bytes) (target : ℕ) (s : Server)
      → After leaving (unmute_client now admin name target s) s
  unfolding unmute_client set_muted
  unmute_client-After now admin name target s =
      status_event-After now admin _ name target _
      ⨾ on_client-After target (set_muted false) s (λ h. h) (λ h. h) refl

  unmute_found-After :
      (now : Now) (c : ℕ) (args : Bytes) (o : Option ℕ) (s : Server)
      → After leaving (unmute_found now c args o s) s
  unfolding unmute_found
  unmute_found-After now c args none s = reply-After leaving now c _ s
  unmute_found-After now c args (some target) s =
      either _ (reply-After leaving now c _ s)
        (prompt_to-After now c _ ⨾ unmute_client-After now _ args target s)

  pub cmd_unmute-After :
      (now : Now) (c : ℕ) (args : Bytes) (s : Server) → After leaving (cmd_unmute now c args s) s
  unfolding cmd_unmute
  cmd_unmute-After now c args s =
      either _ (reply-After leaving now c _ s) (unmute_found-After now c args _ s)

  pub promote_client-After :
      (now : Now) (admin name : Bytes) (target : ℕ) (s : Server)
      → After leaving (promote_client now admin name target s) s
  unfolding promote_client set_admin add_admin
  promote_client-After now admin name target s =
      status_event-After now admin _ name target _
      ⨾ send_to-After target _ _
      ⨾ save_admins-After leaving _
      ⨾ unseen refl
      ⨾ on_client-After target (set_admin true) s (λ h. h) (λ h. h) refl

  promote_found-After :
      (now : Now) (c : ℕ) (args : Bytes) (o : Option ℕ) (s : Server)
      → After leaving (promote_found now c args o s) s
  unfolding promote_found
  promote_found-After now c args none s = reply-After leaving now c _ s
  promote_found-After now c args (some target) s =
      either _ (reply-After leaving now c _ s)
        (prompt_to-After now c _ ⨾ promote_client-After now _ args target s)

  pub cmd_promote-After :
      (now : Now) (c : ℕ) (args : Bytes) (s : Server) → After leaving (cmd_promote now c args s) s
  unfolding cmd_promote
  cmd_promote-After now c args s =
      either _ (reply-After leaving now c _ s) (promote_found-After now c args _ s)

  pub demote_client-After :
      (now : Now) (admin name : Bytes) (target : ℕ) (s : Server)
      → After leaving (demote_client now admin name target s) s
  unfolding demote_client set_admin remove_admin
  demote_client-After now admin name target s =
      status_event-After now admin _ name target _
      ⨾ send_to-After target _ _
      ⨾ save_admins-After leaving _
      ⨾ unseen refl
      ⨾ on_client-After target (set_admin false) s (λ h. h) (λ h. h) refl

  demote_found-After :
      (now : Now) (c : ℕ) (args : Bytes) (o : Option ℕ) (s : Server)
      → After leaving (demote_found now c args o s) s
  unfolding demote_found
  demote_found-After now c args none s = reply-After leaving now c _ s
  demote_found-After now c args (some target) s =
      either _ (reply-After leaving now c _ s)
        (prompt_to-After now c _ ⨾ demote_client-After now _ args target s)

  pub cmd_demote-After :
      (now : Now) (c : ℕ) (args : Bytes) (s : Server) → After leaving (cmd_demote now c args s) s
  unfolding cmd_demote
  cmd_demote-After now c args s =
      either _ (reply-After leaving now c _ s) (demote_found-After now c args _ s)

  record_in_rooms-After :
      (rooms : List Bytes) (msg : Message) (s : Server)
      → After leaving (record_in_rooms rooms msg s) s
  unfolding record_in_rooms
  record_in_rooms-After [] msg s = same
  record_in_rooms-After (room ∷ rooms) msg s =
      record_in_rooms-After rooms msg _ ⨾ record_room_event-After room msg s

  pub announce_all-After :
      (now : Now) (admin text : Bytes) (s : Server)
      → After leaving (announce_all now admin text s) s
  unfolding announce_all
  announce_all-After now admin text s = broadcast_all_rooms-After _ _ ⨾ record_in_rooms-After _ _ s

  pub cmd_announce-After :
      (now : Now) (c : ℕ) (args : Bytes) (s : Server) → After leaving (cmd_announce now c args s) s
  unfolding cmd_announce
  cmd_announce-After now c args s =
      either _ (reply-After leaving now c _ s)
        (prompt_to-After now c _ ⨾ announce_all-After now _ args s)
