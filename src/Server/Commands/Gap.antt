-- ===== src/Server/Commands/Gap.antt =====
-- `/switch` and `/create` of server/commands.go with the gap between their two critical sections:
-- others can take steps after the check of the room and before the client moves.
pub mod Exact
use net_cat.Base.{
  Bytes, codes, bytes_eq, bytes_eq_iff, ℕ, suc, not, true, false, ◌≤◌, ◌≡◌, ◌≢◌, refl, ◌∙◌, sym, ap,
  subst, [], ◌∷◌, ◌++◌, Option, none, some, inl, inr, if◌then◌else◌, length, arith, Bool-cases,
  Option-cases,
}
use net_cat.Base.Assoc.{lookup, insert, length-insert, delete, lookup-delete}
use net_cat.Server.{Server, Now, on_client, prompt_to, max_active_clients}
use net_cat.Server.Names.{validate_room_name}
use net_cat.Server.Rooms.{
  check_room_capacity, get_room_client_count, get_or_create_room, put_room, drop_member, enter_room,
  join_room, admit_from_room_queue, delete_room_if_empty,
}
use net_cat.Server.Rooms.Capacity.{
  put_room-count, get_or_create_room-count, enter_room-same, admit_from_room_queue-count,
  check_room_capacity-count,
}
use net_cat.Server.Commands.{reply}
use net_cat.Server.Commands.Travel.{
  announce_leave, switch_client_room, switch_to, cmd_switch, create_room, cmd_create,
}
use net_cat.Server.Commands.Capacity.{
  send_to-count, prompt_to-count, reply-count, announce_leave-count, announce_join-count,
  send_history-count, switch_client_room-count,
}

-- What the other goroutines do in the gap takes the server to another.
unfoldable pub switch_across : (Server → Server) → Now → ℕ → Bytes → Option Bytes → Server → Server
switch_across between now c target (some problem) s = reply now c (problem ++ codes "\n") s
switch_across between now c target none s =
    if bytes_eq target (s.heap c).room
    then reply now c (codes "You are already in room '" ++ (target ++ codes "'.\n")) s
    else if not (check_room_capacity target s)
    then reply now c (codes "Room '" ++ (target ++ codes "' is full.\n")) s
    else prompt_to now c (switch_client_room now c target (between s))

unfoldable pub cmd_switch_across : (Server → Server) → Now → ℕ → Bytes → Server → Server
cmd_switch_across between now c args s =
    if bytes_eq args []
    then reply now c (codes "Usage: /switch <room>\n") s
    else switch_across between now c args (validate_room_name args) s

unfoldable pub create_across : (Server → Server) → Now → ℕ → Bytes → Option Bytes → Server → Server
create_across between now c name (some problem) s = reply now c (problem ++ codes "\n") s
create_across between now c name none s = elim (lookup name s.rooms) [
  | some r ↦
      reply now c
        (codes "Room '"
          ++ (name ++ (codes "' already exists. Use /switch " ++ (name ++ codes " to join it.\n"))))
        s
  | none ↦ prompt_to now c (switch_client_room now c name (between s))
]

unfoldable pub cmd_create_across : (Server → Server) → Now → ℕ → Bytes → Server → Server
cmd_create_across between now c args s =
    if bytes_eq args []
    then reply now c (codes "Usage: /create <room>\n") s
    else create_across between now c args (validate_room_name args) s

-- Where nobody comes between, they are the commands as one step.
switch_across-same :
    (now : Now) (c : ℕ) (target : Bytes) (o : Option Bytes) (s : Server)
    → switch_across (λ x. x) now c target o s ≡ switch_to now c target o s
unfolding switch_across switch_to
switch_across-same now c target (some problem) s = refl
switch_across-same now c target none s = refl

cmd_switch_across-same :
    (now : Now) (c : ℕ) (args : Bytes) (s : Server)
    → cmd_switch_across (λ x. x) now c args s ≡ cmd_switch now c args s
unfolding cmd_switch_across cmd_switch
cmd_switch_across-same now c args s =
    rw (switch_across-same now c args (validate_room_name args) s) refl

create_across-same :
    (now : Now) (c : ℕ) (name : Bytes) (o : Option Bytes) (s : Server)
    → create_across (λ x. x) now c name o s ≡ create_room now c name o s
unfolding create_across create_room
create_across-same now c name (some problem) s = refl
create_across-same now c name none s = refl

cmd_create_across-same :
    (now : Now) (c : ℕ) (args : Bytes) (s : Server)
    → cmd_create_across (λ x. x) now c args s ≡ cmd_create now c args s
unfolding cmd_create_across cmd_create
cmd_create_across-same now c args s =
    rw (create_across-same now c args (validate_room_name args) s) refl

module _ (between : Server → Server) (k : Bytes) (now : Now) (c : ℕ) (s : Server)
    (before : get_room_client_count k s ≤ max_active_clients)
    (after : get_room_client_count k (between s) ≤ max_active_clients) where
  stays_full : (msg : Bytes) → get_room_client_count k (reply now c msg s) ≤ max_active_clients
  stays_full msg = rw (reply-count k now c msg s) before

  moves_in :
      (room : Bytes)
      → suc (get_room_client_count room (between s)) ≤ max_active_clients
      → get_room_client_count k (prompt_to now c (switch_client_room now c room (between s)))
        ≤ max_active_clients
  moves_in room h =
      rw (prompt_to-count k now c (switch_client_room now c room (between s)))
        (ground (arith, switch_client_room-count k now c room (between s), bytes_eq_iff room k))

  switch_across-count :
      (room : Bytes) (o : Option Bytes)
      → get_room_client_count room (between s) ≤ get_room_client_count room s
      → get_room_client_count k (switch_across between now c room o s) ≤ max_active_clients
  unfolding switch_across
  switch_across-count room (some problem) quiet = stays_full _
  switch_across-count room none quiet = elim (Bool-cases (bytes_eq room (s.heap c).room)) [
    | inl a ↦ rw (a, switch_across) (stays_full _)
    | inr a ↦ elim (Bool-cases (check_room_capacity room s)) [
      | inl b ↦
          rw (a, b, switch_across)
            (moves_in room (ground (arith, check_room_capacity-count room s b)))
      | inr b ↦ rw (a, b, switch_across) (stays_full _)
    ]
  ]

  -- `/switch` leaves a room that has at most `MaxActiveClients` members before it and at the end of
  -- the gap with no more than that, as long as in the gap between the check of the capacity and
  -- the move the members of the room that it switches to become no more.
  pub cmd_switch_across-count :
      (args : Bytes)
      → get_room_client_count args (between s) ≤ get_room_client_count args s
      → get_room_client_count k (cmd_switch_across between now c args s) ≤ max_active_clients
  unfolding cmd_switch_across
  cmd_switch_across-count args quiet = elim (Bool-cases (bytes_eq args [])) [
    | inl e ↦ rw (e, cmd_switch_across) (stays_full _)
    | inr e ↦ rw (e, cmd_switch_across) (switch_across-count args _ quiet)
  ]
