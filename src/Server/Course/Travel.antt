-- ===== src/Server/Course/Travel.antt =====
-- The course of `/switch`, `/create` and `/name`, server/commands.go.
use net_cat.Base.{
  Bytes, bytes_eq, ℕ, List, [], Option, none, some, inl, inr, Option-cases, Bool-cases, refl, ◌≡◌,
  subst, sym,
}
use net_cat.Base.Assoc.{lookup}
use net_cat.Server.{Server, Now, is_set}
use net_cat.Server.Rooms.{check_room_capacity}
use net_cat.Server.Clients.{is_reserved_name, rename_client, rename_member, set_name, swap_name}
use net_cat.Server.Admins.{save_admins, rename_admin}
use net_cat.Server.Commands.Travel.{
  announce_leave, announce_join, send_history, switch_client_room, switch_to, cmd_switch,
  create_room, cmd_create, finish_rename, rename_to, cmd_name,
}
use net_cat.Server.Index.Rename.{rename_client-swap}
use net_cat.Server.Course.{After, same, unseen, ◌⨾◌, either}
use net_cat.Server.Course.Keep.{on_client-After, send_to-After, prompt_to-After, put_room-After}
use net_cat.Server.Course.Rooms.{record_room_event-After, broadcast_room-After, join_room-After}
use net_cat.Server.Course.Queues.{admit_from_room_queue-After}
use net_cat.Server.Course.Removal.{delete_room_if_empty-After}
use net_cat.Server.Course.Inform.{reply-After, send_lines-After}

module _ (leaving : List ℕ) where
  pub announce_leave-After :
      (now : Now) (room username reason : Bytes) (s : Server)
      → After leaving (announce_leave now room username reason s) s
  unfolding announce_leave
  announce_leave-After now room username reason s =
      broadcast_room-After room _ _ _ ⨾ record_room_event-After room _ s

  pub announce_join-After :
      (now : Now) (room username : Bytes) (s : Server)
      → After leaving (announce_join now room username s) s
  unfolding announce_join
  announce_join-After now room username s =
      broadcast_room-After room _ _ _ ⨾ record_room_event-After room _ s

  pub send_history-After :
      (c : ℕ) (room : Bytes) (s : Server) → After leaving (send_history c room s) s
  unfolding send_history
  send_history-After c room s = send_lines-After leaving c _ s

  switch_client_room-After :
      (now : Now) (c : ℕ) (room : Bytes) (s : Server)
      → After leaving (switch_client_room now c room s) s
  unfolding switch_client_room
  switch_client_room-After now c room s =
      send_to-After c _ _
      ⨾ announce_join-After now room _ _
      ⨾ send_history-After c room _
      ⨾ delete_room_if_empty-After _ _
      ⨾ admit_from_room_queue-After _ _
      ⨾ join_room-After c room _
      ⨾ announce_leave-After now _ _ _ s

  switch_to-After :
      (now : Now) (c : ℕ) (room : Bytes) (o : Option Bytes) (s : Server)
      → After leaving (switch_to now c room o s) s
  unfolding switch_to
  switch_to-After now c room (some problem) s = reply-After leaving now c _ s
  switch_to-After now c room none s = elim (Bool-cases (bytes_eq room (s.heap c).room)) [
    | inl a ↦ rw (a, switch_to) (reply-After leaving now c _ s)
    | inr a ↦ elim (Bool-cases (check_room_capacity room s)) [
      | inl b ↦
          rw (a, b, switch_to) (prompt_to-After now c _ ⨾ switch_client_room-After now c room s)
      | inr b ↦ rw (a, b, switch_to) (reply-After leaving now c _ s)
    ]
  ]

  pub cmd_switch-After :
      (now : Now) (c : ℕ) (args : Bytes) (s : Server) → After leaving (cmd_switch now c args s) s
  unfolding cmd_switch
  cmd_switch-After now c args s =
      either _ (reply-After leaving now c _ s) (switch_to-After now c args _ s)

  create_room-After :
      (now : Now) (c : ℕ) (room : Bytes) (o : Option Bytes) (s : Server)
      → After leaving (create_room now c room o s) s
  unfolding create_room
  create_room-After now c room (some problem) s = reply-After leaving now c _ s
  create_room-After now c room none s = elim (Option-cases (lookup room s.rooms)) [
    | inl e ↦ rw (e, create_room) (prompt_to-After now c _ ⨾ switch_client_room-After now c room s)
    | inr (r, e) ↦ rw (e, create_room) (reply-After leaving now c _ s)
  ]

  pub cmd_create-After :
      (now : Now) (c : ℕ) (args : Bytes) (s : Server) → After leaving (cmd_create now c args s) s
  unfolding cmd_create
  cmd_create-After now c args s =
      either _ (reply-After leaving now c _ s) (create_room-After now c args _ s)

  pub save_admins-After : (s : Server) → After leaving (save_admins s) s
  unfolding save_admins
  save_admins-After s = elim (Bool-cases (bytes_eq s.admins_file [])) [
    | inl a ↦ rw (a, save_admins) same
    | inr a ↦ elim (Bool-cases (s.disk.can_write s.admins_file)) [
      | inl b ↦ rw (a, b, save_admins) (unseen refl)
      | inr b ↦ rw (a, b, save_admins) same
    ]
  ]

  rename_admin-After :
      (old_name new_name : Bytes) (s : Server) → After leaving (rename_admin old_name new_name s) s
  unfolding rename_admin
  rename_admin-After old_name new_name s =
      save_admins-After _ ⨾ either (is_set old_name s.admins) (unseen refl) same

  rename_member-After :
      (c : ℕ) (old_name new_name : Bytes) (s : Server)
      → After leaving (rename_member c old_name new_name s) s
  unfolding rename_member
  rename_member-After c old_name new_name s =
      let room = (s.heap c).room in
      either (bytes_eq room []) same (elim (Option-cases (lookup room s.rooms)) [
        | inl e ↦ rw e same
        | inr (r, e) ↦ rw e (put_room-After room _ s (rw e refl))
      ])

  swap_name-After :
      (c : ℕ) (old_name new_name : Bytes) (s : Server)
      → After leaving (swap_name c old_name new_name s) s
  unfolding swap_name set_name
  swap_name-After c old_name new_name s =
      rename_member-After c old_name new_name _
      ⨾ on_client-After c _ _ (λ h. h) (λ h. h) refl
      ⨾ unseen refl

  finish_rename-After :
      (now : Now) (c : ℕ) (old_name new_name : Bytes) (o : Option Server) (s : Server)
      → rename_client c old_name new_name s ≡ o
      → After leaving (finish_rename now c old_name new_name o s) s
  unfolding finish_rename
  finish_rename-After now c old_name new_name none s e = reply-After leaving now c _ s
  finish_rename-After now c old_name new_name (some t) s e =
      let (free, open_name, swapped) = rename_client-swap c old_name new_name s t e in
      prompt_to-After now c _
      ⨾ broadcast_room-After _ _ _ _
      ⨾ record_room_event-After _ _ _
      ⨾ either (t.heap c).admin (rename_admin-After old_name new_name t) same
      ⨾ subst (λ (x : Server). After leaving x s) (sym swapped)
          (swap_name-After c old_name new_name s)

  rename_to-After :
      (now : Now) (c : ℕ) (new_name : Bytes) (o : Option Bytes) (s : Server)
      → After leaving (rename_to now c new_name o s) s
  unfolding rename_to
  rename_to-After now c new_name (some problem) s = reply-After leaving now c _ s
  rename_to-After now c new_name none s = elim (Bool-cases (is_reserved_name new_name s)) [
    | inl a ↦ rw (a, rename_to) (reply-After leaving now c _ s)
    | inr a ↦ elim (Bool-cases (bytes_eq new_name (s.heap c).username)) [
      | inl b ↦ rw (a, b, rename_to) (reply-After leaving now c _ s)
      | inr b ↦
          rw (a, b, rename_to) (finish_rename-After now c (s.heap c).username new_name _ s refl)
    ]
  ]

  pub cmd_name-After :
      (now : Now) (c : ℕ) (args : Bytes) (s : Server) → After leaving (cmd_name now c args s) s
  unfolding cmd_name
  cmd_name-After now c args s =
      either _ (reply-After leaving now c _ s) (rename_to-After now c args _ s)
