-- ===== src/Server/Clients.antt =====
-- server/clients.go.
use net_cat.Base.{
  Bytes, bytes_eq, length, ℕ, Bool, true, false, ◌&&◌, not, ◌==◌, List, [], ◌∷◌, Option, none, some,
  if◌then◌else◌, keep, ◌⊎◌, inl, inr,
}
use net_cat.Base.Assoc.{lookup, insert, delete, keys, values}
use net_cat.Client.{Client, set_last_activity}
use net_cat.Server.{Server, Now, is_set, on_client}
use net_cat.Server.Names.{extract_host}
use net_cat.Server.Rooms.{drop_member, put_room, send_except, send_all}

abbrev pub has {ℓ} : {A : Type ℓ} → Option A → Bool
has none = false
has (some a) = true

unfoldable pub track_client : ℕ → Server → Server
track_client c s = record s { all_clients = c ∷ keep (λ d. not (d == c)) s.all_clients }

unfoldable pub untrack_client : ℕ → Server → Server
untrack_client c s = record s { all_clients = keep (λ d. not (d == c)) s.all_clients }

-- The two errors of `RegisterClient`.
pub data NameError : Type 0 where
  name_taken name_reserved : NameError

abbrev pub named : Bytes → ℕ → Client → Client
named name instant d = set_last_activity instant (record d { username = name; join_time = instant })

unfoldable pub add_client : Now → ℕ → Bytes → Server → Server
add_client now c name s =
    on_client c (named name now.instant) (record s { clients = insert name c s.clients })

-- The error, or the server with the client registered.
unfoldable pub register_client : Now → ℕ → Bytes → Server → NameError ⊎ Server
register_client now c name s =
    if has (lookup name s.clients)
    then inl name_taken
    else if is_set name s.reserved_names
    then inl name_reserved
    else inr (add_client now c name s)

unfoldable pub drop_client : Bytes → Server → Server
drop_client name s = record s { clients = delete name s.clients }

unfoldable pub remove_client : Bytes → Server → Server
remove_client username s = elim (lookup username s.clients) [
  | none ↦ s
  | some c ↦ drop_client username (drop_member c username s)
]

unfoldable pub get_client : Bytes → Server → Option ℕ
get_client name s = lookup name s.clients

unfoldable pub get_client_count : Server → ℕ
get_client_count s = length s.clients

unfoldable pub get_client_names : Server → List Bytes
get_client_names s = keys s.clients

unfoldable pub is_reserved_name : Bytes → Server → Bool
is_reserved_name name s = is_set name s.reserved_names

-- The rename in the index of the client's room.
unfoldable pub rename_member : ℕ → Bytes → Bytes → Server → Server
rename_member c old_name new_name s =
    if bytes_eq (s.heap c).room [] then s else elim (lookup (s.heap c).room s.rooms) [
      | none ↦ s
      | some r ↦
          put_room (s.heap c).room
            (record r { clients = insert new_name c (delete old_name r.clients) }) s
    ]

-- The rename in the global index and in the client.
unfoldable pub set_name : ℕ → Bytes → Bytes → Server → Server
set_name c old_name new_name s =
    on_client c (λ d. record d { username = new_name })
      (record s { clients = insert new_name c (delete old_name s.clients) })

unfoldable pub swap_name : ℕ → Bytes → Bytes → Server → Server
swap_name c old_name new_name s = rename_member c old_name new_name (set_name c old_name new_name s)

-- `none` where the program returns false.
unfoldable pub rename_client : ℕ → Bytes → Bytes → Server → Option Server
rename_client c old_name new_name s =
    if has (lookup new_name s.clients)
    then none
    else if is_set new_name s.reserved_names
    then none
    else some (swap_name c old_name new_name s)

unfoldable pub get_clients_by_ip : Bytes → Bytes → Server → List ℕ
get_clients_by_ip host exclude s =
    keep
      (λ c.
        bytes_eq (extract_host (s.heap c).ip) host && not (bytes_eq (s.heap c).username exclude))
      (values s.clients)

unfoldable pub broadcast : Bytes → Bytes → Server → Server
broadcast msg exclude s = send_except msg exclude s.clients s

unfoldable pub broadcast_all : Bytes → Server → Server
broadcast_all msg s = send_all msg s.clients s
