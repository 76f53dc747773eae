-- ===== src/Server/Rights/Lines.antt =====
-- The commands of admins, and a rename, as to who is an admin.
use net_cat.Base.{
  Bytes, bytes_eq, trim_space, length, ℕ, Bool, true, false, ◌≡◌, refl, ◌∙◌, ap, Option, none, some,
  inl, inr, ◌==◌, ==_iff, arith, if◌then◌else◌, [], Bool-cases,
}
use mathlib.Core.Path.{fun_ext}
use net_cat.Base.Assoc.{insert, delete}
use net_cat.Base.Heap.{update}
use net_cat.Client.{set_muted}
use net_cat.Server.{Server, Now, on_client, is_set}
use net_cat.Server.Clients.{rename_client, is_reserved_name}
use net_cat.Server.Admins.{rename_admin, save_admins}
use net_cat.Server.Commands.Travel.{finish_rename, rename_to, cmd_name}
use net_cat.Server.Commands.Moderate.{
  kick_found, cmd_kick, ban_found, cmd_ban, status_event, mute_client, unmute_client, mute_found,
  unmute_found, cmd_mute, cmd_unmute, announce_all, cmd_announce,
}
use net_cat.Server.Rights.{rights}
use net_cat.Server.Rights.Keep.{
  prompt_to-rights, reply-rights, record_room_event-rights, broadcast_room-rights,
}
use net_cat.Server.Rights.Travel.{renamed, swap_name-rights}
use net_cat.Server.Rights.Grants.{
  admins_at, of_rights, kick_client-admins, ban_client-admins, broadcast_all_rooms-rights,
  record_in_rooms-rights,
}

set_muted-admins :
    (b : Bool) (c : ℕ) (s : Server) → admins_at (on_client c (set_muted b) s) ≡ admins_at s
unfolding admins_at on_client set_muted
set_muted-admins b c s =
    fun_ext {f = λ d. (update s.heap c (set_muted b (s.heap c)) d).admin}
      {g = λ d. (s.heap d).admin} (λ d. same d)
  where
    same : (d : ℕ) → (update s.heap c (set_muted b (s.heap c)) d).admin ≡ (s.heap d).admin
    same d = ground (arith, ==_iff c d)

status_event-rights :
    (now : Now) (admin action victim : Bytes) (target : ℕ) (s : Server)
    → rights (status_event now admin action victim target s) ≡ rights s
unfolding status_event
status_event-rights now admin action victim target s =
    broadcast_all_rooms-rights _ _ ∙ record_room_event-rights _ _ s

save_admins-admins : (s : Server) → admins_at (save_admins s) ≡ admins_at s
unfolding save_admins admins_at
save_admins-admins s = elim (Bool-cases (bytes_eq s.admins_file [])) [
  | inl a ↦ rw (a, save_admins) refl
  | inr a ↦ elim (Bool-cases (s.disk.can_write s.admins_file)) [
    | inl b ↦ rw (a, b, save_admins) refl
    | inr b ↦ rw (a, b, save_admins) refl
  ]
]

rename_admin-admins :
    (old_name new_name : Bytes) (s : Server)
    → admins_at (rename_admin old_name new_name s) ≡ admins_at s
unfolding rename_admin admins_at
rename_admin-admins old_name new_name s = elim (Bool-cases (is_set old_name s.admins)) [
  | inl e ↦
      rw (e, rename_admin)
        (save_admins-admins (record s { admins = insert new_name true (delete old_name s.admins) }))
  | inr e ↦ rw (e, rename_admin) (save_admins-admins s)
]

module _ (now : Now) (c : ℕ) (args : Bytes) (s : Server) where
  replied : (msg : Bytes) → admins_at (net_cat.Server.Commands.reply now c msg s) ≡ admins_at s
  replied msg = of_rights s _ (reply-rights now c msg s)

  kick_found-admins : (o : Option ℕ) → admins_at (kick_found now c args o s) ≡ admins_at s
  unfolding kick_found
  kick_found-admins none = replied _
  kick_found-admins (some target) =
      elim (Bool-cases (bytes_eq (s.heap target).room (s.heap c).room)) [
        | inl e ↦
            rw (e, kick_found)
              (of_rights _ _ (prompt_to-rights now c _)
                ∙ kick_client-admins now (s.heap c).username args target s)
        | inr e ↦ rw (e, kick_found) (replied _)
      ]

  pub cmd_kick-admins : admins_at (cmd_kick now c args s) ≡ admins_at s
  unfolding cmd_kick
  cmd_kick-admins = elim (Bool-cases (bytes_eq args [])) [
    | inl e ↦ rw (e, cmd_kick) (replied _)
    | inr e ↦ rw (e, cmd_kick) (kick_found-admins _)
  ]

  ban_found-admins : (o : Option ℕ) → admins_at (ban_found now c args o s) ≡ admins_at s
  unfolding ban_found
  ban_found-admins none = replied _
  ban_found-admins (some target) =
      of_rights _ _ (prompt_to-rights now c _)
      ∙ ban_client-admins now (s.heap c).username (s.heap c).username args target s

  pub cmd_ban-admins : admins_at (cmd_ban now c args s) ≡ admins_at s
  unfolding cmd_ban
  cmd_ban-admins = elim (Bool-cases (bytes_eq args [])) [
    | inl e ↦ rw (e, cmd_ban) (replied _)
    | inr e ↦ rw (e, cmd_ban) (ban_found-admins _)
  ]

  mute_found-admins : (o : Option ℕ) → admins_at (mute_found now c args o s) ≡ admins_at s
  unfolding mute_found mute_client
  mute_found-admins none = replied _
  mute_found-admins (some target) = elim (Bool-cases (s.heap target).muted) [
    | inl e ↦ rw (e, mute_found) (replied _)
    | inr e ↦
        rw (e, mute_found)
          (of_rights _ _ (prompt_to-rights now c _ ∙ status_event-rights now _ _ _ target _)
            ∙ set_muted-admins true target s)
  ]

  pub cmd_mute-admins : admins_at (cmd_mute now c args s) ≡ admins_at s
  unfolding cmd_mute
  cmd_mute-admins = elim (Bool-cases (bytes_eq args [])) [
    | inl e ↦ rw (e, cmd_mute) (replied _)
    | inr e ↦ rw (e, cmd_mute) (mute_found-admins _)
  ]

  unmute_found-admins : (o : Option ℕ) → admins_at (unmute_found now c args o s) ≡ admins_at s
  unfolding unmute_found unmute_client
  unmute_found-admins none = replied _
  unmute_found-admins (some target) = elim (Bool-cases (s.heap target).muted) [
    | inl e ↦
        rw (e, unmute_found)
          (of_rights _ _ (prompt_to-rights now c _ ∙ status_event-rights now _ _ _ target _)
            ∙ set_muted-admins false target s)
    | inr e ↦ rw (e, unmute_found) (replied _)
  ]

  pub cmd_unmute-admins : admins_at (cmd_unmute now c args s) ≡ admins_at s
  unfolding cmd_unmute
  cmd_unmute-admins = elim (Bool-cases (bytes_eq args [])) [
    | inl e ↦ rw (e, cmd_unmute) (replied _)
    | inr e ↦ rw (e, cmd_unmute) (unmute_found-admins _)
  ]

  pub cmd_announce-rights : rights (cmd_announce now c args s) ≡ rights s
  unfolding cmd_announce announce_all
  cmd_announce-rights = elim (Bool-cases (length (trim_space args) == 0)) [
    | inl e ↦ rw (e, cmd_announce) (reply-rights now c _ s)
    | inr e ↦
        rw (e, cmd_announce)
          (prompt_to-rights now c _ ∙ broadcast_all_rooms-rights _ _ ∙ record_in_rooms-rights _ _ s)
  ]

  saved :
      (old_name new_name : Bytes) (t : Server)
      → admins_at (if (t.heap c).admin then rename_admin old_name new_name t else t) ≡ admins_at t
  saved old_name new_name t = elim (Bool-cases (t.heap c).admin) [
    | inl e ↦ rw e (rename_admin-admins old_name new_name t)
    | inr e ↦ rw e refl
  ]

  finish_rename-admins :
      (old_name new_name : Bytes) (o : Option Server)
      → rename_client c old_name new_name s ≡ o
      → admins_at (finish_rename now c old_name new_name o s) ≡ admins_at s
  unfolding finish_rename
  finish_rename-admins old_name new_name none h = replied _
  finish_rename-admins old_name new_name (some t) h =
      of_rights _ _
        (prompt_to-rights now c _ ∙ broadcast_room-rights _ _ _ _ ∙ record_room_event-rights _ _ _)
      ∙ saved old_name new_name t
      ∙ of_rights s t
          (ap rights (renamed c old_name new_name s t h) ∙ swap_name-rights c old_name new_name s)

  rename_to-admins :
      (new_name : Bytes) (o : Option Bytes) → admins_at (rename_to now c new_name o s) ≡ admins_at s
  unfolding rename_to
  rename_to-admins new_name (some problem) = replied _
  rename_to-admins new_name none = elim (Bool-cases (is_reserved_name new_name s)) [
    | inl a ↦ rw (a, rename_to) (replied _)
    | inr a ↦ elim (Bool-cases (bytes_eq new_name (s.heap c).username)) [
      | inl b ↦ rw (a, b, rename_to) (replied _)
      | inr b ↦ rw (a, b, rename_to) (finish_rename-admins (s.heap c).username new_name _ refl)
    ]
  ]

  pub cmd_name-admins : admins_at (cmd_name now c args s) ≡ admins_at s
  unfolding cmd_name
  cmd_name-admins = elim (Bool-cases (bytes_eq args [])) [
    | inl e ↦ rw (e, cmd_name) (replied _)
    | inr e ↦ rw (e, cmd_name) (rename_to-admins args _)
  ]
