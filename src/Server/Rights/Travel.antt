-- ===== src/Server/Rights/Travel.antt =====
-- `/switch`, `/create` and `/name` of server/commands.go, as to the rights.
use net_cat.Base.{
  Bytes, bytes_eq, ℕ, false, List, [], ◌≡◌, refl, ◌∙◌, ap, Option, none, some, inl, inr, arith,
  Bool-cases, Option-cases,
}
use net_cat.Base.Assoc.{lookup}
use net_cat.Server.{Server, Now}
use net_cat.Server.Rooms.{check_room_capacity, put_room}
use net_cat.Server.Clients.{rename_client, rename_member, set_name, swap_name, is_reserved_name}
use net_cat.Server.Commands.Travel.{
  announce_leave, announce_join, send_history, switch_client_room, switch_to, cmd_switch,
  create_room, cmd_create, finish_rename, rename_to, cmd_name,
}
use net_cat.Server.Rights.{Rights, rights}
use net_cat.Server.Rights.Keep.{
  on_client-rights, send_to-rights, prompt_to-rights, reply-rights, send_lines-rights,
  record_room_event-rights, broadcast_room-rights, admit_from_room_queue-rights,
  delete_room_if_empty-rights, join_room-rights,
}

pub announce_leave-rights :
    (now : Now) (room username reason : Bytes) (s : Server)
    → rights (announce_leave now room username reason s) ≡ rights s
unfolding announce_leave
announce_leave-rights now room username reason s =
    broadcast_room-rights room _ _ _ ∙ record_room_event-rights room _ s

announce_join-rights :
    (now : Now) (room username : Bytes) (s : Server)
    → rights (announce_join now room username s) ≡ rights s
unfolding announce_join
announce_join-rights now room username s =
    broadcast_room-rights room _ _ _ ∙ record_room_event-rights room _ s

send_history-rights :
    (c : ℕ) (room : Bytes) (s : Server) → rights (send_history c room s) ≡ rights s
unfolding send_history
send_history-rights c room s = send_lines-rights c _ s

switch_client_room-rights :
    (now : Now) (c : ℕ) (room : Bytes) (s : Server)
    → rights (switch_client_room now c room s) ≡ rights s
unfolding switch_client_room
switch_client_room-rights now c room s =
    send_to-rights c _ _
    ∙ announce_join-rights now room _ _
    ∙ send_history-rights c room _
    ∙ delete_room_if_empty-rights _ _
    ∙ admit_from_room_queue-rights _ _
    ∙ join_room-rights c room _
    ∙ announce_leave-rights now _ _ _ s

switch_to-rights :
    (now : Now) (c : ℕ) (room : Bytes) (o : Option Bytes) (s : Server)
    → rights (switch_to now c room o s) ≡ rights s
unfolding switch_to
switch_to-rights now c room (some problem) s = reply-rights now c _ s
switch_to-rights now c room none s = elim (Bool-cases (bytes_eq room (s.heap c).room)) [
  | inl a ↦ rw (a, switch_to) (reply-rights now c _ s)
  | inr a ↦ elim (Bool-cases (check_room_capacity room s)) [
    | inl b ↦
        rw (a, b, switch_to) (prompt_to-rights now c _ ∙ switch_client_room-rights now c room s)
    | inr b ↦ rw (a, b, switch_to) (reply-rights now c _ s)
  ]
]

pub cmd_switch-rights :
    (now : Now) (c : ℕ) (args : Bytes) (s : Server) → rights (cmd_switch now c args s) ≡ rights s
unfolding cmd_switch
cmd_switch-rights now c args s = elim (Bool-cases (bytes_eq args [])) [
  | inl e ↦ rw (e, cmd_switch) (reply-rights now c _ s)
  | inr e ↦ rw (e, cmd_switch) (switch_to-rights now c args _ s)
]

create_room-rights :
    (now : Now) (c : ℕ) (room : Bytes) (o : Option Bytes) (s : Server)
    → rights (create_room now c room o s) ≡ rights s
unfolding create_room
create_room-rights now c room (some problem) s = reply-rights now c _ s
create_room-rights now c room none s = elim (Option-cases (lookup room s.rooms)) [
  | inl e ↦ rw (e, create_room) (prompt_to-rights now c _ ∙ switch_client_room-rights now c room s)
  | inr (r, e) ↦ rw (e, create_room) (reply-rights now c _ s)
]

pub cmd_create-rights :
    (now : Now) (c : ℕ) (args : Bytes) (s : Server) → rights (cmd_create now c args s) ≡ rights s
unfolding cmd_create
cmd_create-rights now c args s = elim (Bool-cases (bytes_eq args [])) [
  | inl e ↦ rw (e, cmd_create) (reply-rights now c _ s)
  | inr e ↦ rw (e, cmd_create) (create_room-rights now c args _ s)
]

rename_member-rights :
    (c : ℕ) (old_name new_name : Bytes) (s : Server)
    → rights (rename_member c old_name new_name s) ≡ rights s
unfolding rename_member put_room rights
rename_member-rights c old_name new_name s = elim (Bool-cases (bytes_eq (s.heap c).room [])) [
  | inl e ↦ rw (e, rename_member) refl
  | inr e ↦ elim (Option-cases (lookup (s.heap c).room s.rooms)) [
    | inl g ↦ rw (e, g, rename_member) refl
    | inr (r, g) ↦ rw (e, g, rename_member) refl
  ]
]

indexed : (m : List (Bytes × ℕ)) (s : Server) → rights (record s { clients = m }) ≡ rights s
unfolding rights
indexed m s = refl

set_name-rights :
    (c : ℕ) (old_name new_name : Bytes) (s : Server)
    → rights (set_name c old_name new_name s) ≡ rights s
unfolding set_name
set_name-rights c old_name new_name s =
    on_client-rights c (λ d. record d { username = new_name }) _ refl refl ∙ indexed _ s

pub swap_name-rights :
    (c : ℕ) (old_name new_name : Bytes) (s : Server)
    → rights (swap_name c old_name new_name s) ≡ rights s
unfolding swap_name
swap_name-rights c old_name new_name s =
    rename_member-rights c old_name new_name _ ∙ set_name-rights c old_name new_name s

pub renamed :
    (c : ℕ) (old_name new_name : Bytes) (s t : Server)
    → rename_client c old_name new_name s ≡ some t
    → t ≡ swap_name c old_name new_name s
unfolding rename_client
renamed c old_name new_name s t h = ground arith

pub not_admin :
    (c : ℕ) (s t : Server)
    → rights t ≡ rights s
    → (s.heap c).admin ≡ false
    → (t.heap c).admin ≡ false
unfolding rights
not_admin c s t e h = ap (λ (x : Rights). x.admin_at c) e ∙ h

module _ (now : Now) (c : ℕ) (s : Server) (plain : (s.heap c).admin ≡ false) where
  finish_rename-rights :
      (old_name new_name : Bytes) (o : Option Server)
      → rename_client c old_name new_name s ≡ o
      → rights (finish_rename now c old_name new_name o s) ≡ rights s
  unfolding finish_rename
  finish_rename-rights old_name new_name none h = reply-rights now c _ s
  finish_rename-rights old_name new_name (some t) h =
      let same : rights t ≡ rights s =
        ap rights (renamed c old_name new_name s t h) ∙ swap_name-rights c old_name new_name s in
      rw (not_admin c s t same plain, finish_rename)
        (prompt_to-rights now c _
          ∙ broadcast_room-rights _ _ _ _
          ∙ record_room_event-rights _ _ t
          ∙ same)

  rename_to-rights :
      (new_name : Bytes) (o : Option Bytes) → rights (rename_to now c new_name o s) ≡ rights s
  unfolding rename_to
  rename_to-rights new_name (some problem) = reply-rights now c _ s
  rename_to-rights new_name none = elim (Bool-cases (is_reserved_name new_name s)) [
    | inl a ↦ rw (a, rename_to) (reply-rights now c _ s)
    | inr a ↦ elim (Bool-cases (bytes_eq new_name (s.heap c).username)) [
      | inl b ↦ rw (a, b, rename_to) (reply-rights now c _ s)
      | inr b ↦ rw (a, b, rename_to) (finish_rename-rights (s.heap c).username new_name _ refl)
    ]
  ]

  pub cmd_name-rights : (args : Bytes) → rights (cmd_name now c args s) ≡ rights s
  unfolding cmd_name
  cmd_name-rights args = elim (Bool-cases (bytes_eq args [])) [
    | inl e ↦ rw (e, cmd_name) (reply-rights now c _ s)
    | inr e ↦ rw (e, cmd_name) (rename_to-rights args _)
  ]
