-- ===== src/Server/Consistency/Travel.antt =====
-- `/switch`, `/create` and `/name` of server/commands.go as to the indexes.
use net_cat.Base.{
  Bytes, codes, bytes_eq, bytes_eq_iff, ℕ, true, ◌≡◌, ◌≢◌, refl, sym, ◌∙◌, subst, [], Option, none,
  some, inl, inr, if◌then◌else◌, Bool-cases, Option-cases, arith,
}
use net_cat.Base.Assoc.{lookup, insert, delete}
use net_cat.Server.{Server, Now, is_set}
use net_cat.Server.Rooms.{join_room, check_room_capacity}
use net_cat.Server.Clients.{rename_client, is_reserved_name}
use net_cat.Server.Admins.{rename_admin, save_admins}
use net_cat.Server.Commands.Travel.{
  announce_leave, announce_join, send_history, switch_client_room, switch_to, cmd_switch,
  create_room, cmd_create, finish_rename, rename_to, cmd_name,
}
use net_cat.Server.Index.{index, IsConsistent}
use net_cat.Server.Index.Keep.{
  send_to-index, prompt_to-index, record_room_event-index, broadcast_room-index,
  delete_room_if_empty-index,
}
use net_cat.Server.Index.Keep.Queues.{admit_from_room_queue-index}
use net_cat.Server.Index.Spec.{move-IsConsistent, rename-IsConsistent}
use net_cat.Server.Index.Change.{join_room-move}
use net_cat.Server.Index.Rename.{rename_client-rename}
use net_cat.Server.Consistency.{kept, still_held, reply-index, send_lines-index}

pub announce_leave-index :
    (now : Now) (room username reason : Bytes) (s : Server)
    → index (announce_leave now room username reason s) ≡ index s
unfolding announce_leave
announce_leave-index now room username reason s =
    broadcast_room-index room _ _ _ ∙ record_room_event-index room _ s

pub announce_join-index :
    (now : Now) (room username : Bytes) (s : Server)
    → index (announce_join now room username s) ≡ index s
unfolding announce_join
announce_join-index now room username s =
    broadcast_room-index room _ _ _ ∙ record_room_event-index room _ s

pub send_history-index :
    (c : ℕ) (room : Bytes) (s : Server) → index (send_history c room s) ≡ index s
unfolding send_history
send_history-index c room s = send_lines-index c _ s

-- A client that is registered enters a room that has a name.
pub join_room-IsConsistent :
    (c : ℕ) (room : Bytes) (s : Server)
    → IsConsistent (index s)
    → lookup (s.heap c).username s.clients ≡ some c
    → room ≢ []
    → IsConsistent (index (join_room c room s))
unfolding index
join_room-IsConsistent c room s v held ne =
    subst IsConsistent (sym (join_room-move c room s v))
      (move-IsConsistent (index s) v c room ne held)

pub save_admins-index : (t : Server) → index (save_admins t) ≡ index t
unfolding save_admins index
save_admins-index t = elim (Bool-cases (bytes_eq t.admins_file [])) [
  | inl a ↦ rw (a, save_admins) refl
  | inr a ↦ elim (Bool-cases (t.disk.can_write t.admins_file)) [
    | inl b ↦ rw (a, b, save_admins) refl
    | inr b ↦ rw (a, b, save_admins) refl
  ]
]

rename_admin-index :
    (old_name new_name : Bytes) (t : Server) → index (rename_admin old_name new_name t) ≡ index t
unfolding rename_admin index
rename_admin-index old_name new_name t = elim (Bool-cases (is_set old_name t.admins)) [
  | inl e ↦
      rw (e, rename_admin)
        (save_admins-index (record t { admins = insert new_name true (delete old_name t.admins) }))
  | inr e ↦ rw (e, rename_admin) (save_admins-index t)
]

saved_index :
    (c : ℕ) (old_name new_name : Bytes) (t : Server)
    → index (if (t.heap c).admin then rename_admin old_name new_name t else t) ≡ index t
saved_index c old_name new_name t = elim (Bool-cases (t.heap c).admin) [
  | inl a ↦ rw a (rename_admin-index old_name new_name t)
  | inr a ↦ rw a refl
]

module _ (now : Now) (c : ℕ) (s : Server) (v : IsConsistent (index s))
    (held : lookup (s.heap c).username s.clients ≡ some c) where
  switch_client_room-IsConsistent :
      (room : Bytes) → room ≢ [] → IsConsistent (index (switch_client_room now c room s))
  unfolding switch_client_room
  switch_client_room-IsConsistent room ne =
      let username = (s.heap c).username in
      let left = announce_leave now (s.heap c).room username (codes "switched") s in
      let same : index left ≡ index s = announce_leave-index now _ _ _ s in
      let moved = join_room c room left in
      kept moved _
        (send_to-index c _ _
          ∙ announce_join-index now room username _
          ∙ send_history-index c room _
          ∙ delete_room_if_empty-index _ _
          ∙ admit_from_room_queue-index _ moved)
        (join_room-IsConsistent c room left (kept s left same v) (still_held c s left same held) ne)

  switch_to-IsConsistent :
      (room : Bytes) (o : Option Bytes)
      → room ≢ []
      → IsConsistent (index (switch_to now c room o s))
  unfolding switch_to
  switch_to-IsConsistent room (some problem) ne = kept s _ (reply-index now c _ s) v
  switch_to-IsConsistent room none ne = elim (Bool-cases (bytes_eq room (s.heap c).room)) [
    | inl a ↦ rw (a, switch_to) (kept s _ (reply-index now c _ s) v)
    | inr a ↦ elim (Bool-cases (check_room_capacity room s)) [
      | inl b ↦
          rw (a, b, switch_to)
            (kept _ _ (prompt_to-index now c _) (switch_client_room-IsConsistent room ne))
      | inr b ↦ rw (a, b, switch_to) (kept s _ (reply-index now c _ s) v)
    ]
  ]

  pub cmd_switch-IsConsistent : (args : Bytes) → IsConsistent (index (cmd_switch now c args s))
  unfolding cmd_switch
  cmd_switch-IsConsistent args = elim (Bool-cases (bytes_eq args [])) [
    | inl e ↦ rw (e, cmd_switch) (kept s _ (reply-index now c _ s) v)
    | inr e ↦
        rw (e, cmd_switch)
          (switch_to-IsConsistent args _ (λ p. ground (arith, bytes_eq_iff args [])))
  ]

  create_room-IsConsistent :
      (room : Bytes) (o : Option Bytes)
      → room ≢ []
      → IsConsistent (index (create_room now c room o s))
  unfolding create_room
  create_room-IsConsistent room (some problem) ne = kept s _ (reply-index now c _ s) v
  create_room-IsConsistent room none ne = elim (Option-cases (lookup room s.rooms)) [
    | inl e ↦
        rw (e, create_room)
          (kept _ _ (prompt_to-index now c _) (switch_client_room-IsConsistent room ne))
    | inr (r, e) ↦ rw (e, create_room) (kept s _ (reply-index now c _ s) v)
  ]

  pub cmd_create-IsConsistent : (args : Bytes) → IsConsistent (index (cmd_create now c args s))
  unfolding cmd_create
  cmd_create-IsConsistent args = elim (Bool-cases (bytes_eq args [])) [
    | inl e ↦ rw (e, cmd_create) (kept s _ (reply-index now c _ s) v)
    | inr e ↦
        rw (e, cmd_create)
          (create_room-IsConsistent args _ (λ p. ground (arith, bytes_eq_iff args [])))
  ]

  renamed-IsConsistent :
      (old_name new_name : Bytes) (t : Server)
      → lookup old_name s.clients ≡ some c
      → rename_client c old_name new_name s ≡ some t
      → IsConsistent (index t)
  unfolding index
  renamed-IsConsistent old_name new_name t h e =
      let (free, open_name, changed, rest, rooms) =
        rename_client-rename c old_name new_name s t v h e in
      subst IsConsistent (sym changed)
        (rename-IsConsistent (index s) v c old_name new_name h free (λ p. cc))

  finish_rename-IsConsistent :
      (old_name new_name : Bytes) (o : Option Server)
      → lookup old_name s.clients ≡ some c
      → rename_client c old_name new_name s ≡ o
      → IsConsistent (index (finish_rename now c old_name new_name o s))
  unfolding finish_rename
  finish_rename-IsConsistent old_name new_name none h e = kept s _ (reply-index now c _ s) v
  finish_rename-IsConsistent old_name new_name (some t) h e =
      kept t _
        (prompt_to-index now c _
          ∙ broadcast_room-index _ _ _ _
          ∙ record_room_event-index _ _ _
          ∙ saved_index c old_name new_name t)
        (renamed-IsConsistent old_name new_name t h e)

  rename_to-IsConsistent :
      (new_name : Bytes) (o : Option Bytes) → IsConsistent (index (rename_to now c new_name o s))
  unfolding rename_to
  rename_to-IsConsistent new_name (some problem) = kept s _ (reply-index now c _ s) v
  rename_to-IsConsistent new_name none = elim (Bool-cases (is_reserved_name new_name s)) [
    | inl a ↦ rw (a, rename_to) (kept s _ (reply-index now c _ s) v)
    | inr a ↦ elim (Bool-cases (bytes_eq new_name (s.heap c).username)) [
      | inl b ↦ rw (a, b, rename_to) (kept s _ (reply-index now c _ s) v)
      | inr b ↦
          rw (a, b, rename_to) (finish_rename-IsConsistent (s.heap c).username new_name _ held refl)
    ]
  ]

  pub cmd_name-IsConsistent : (args : Bytes) → IsConsistent (index (cmd_name now c args s))
  unfolding cmd_name
  cmd_name-IsConsistent args = elim (Bool-cases (bytes_eq args [])) [
    | inl e ↦ rw (e, cmd_name) (kept s _ (reply-index now c _ s) v)
    | inr e ↦ rw (e, cmd_name) (rename_to-IsConsistent args _)
  ]
