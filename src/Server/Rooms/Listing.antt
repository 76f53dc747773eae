-- ===== src/Server/Rooms/Listing.antt =====
-- The names that the program lists.
use net_cat.Base.{Bytes, none, some, List, []}
use net_cat.Base.Assoc.{lookup, keys}
use net_cat.Base.Sort.{insertion_sort}
use net_cat.Base.Sort.Laws.{Ascends, insertion_sort-Ascends, insertion_sort-perm}
use mathlib.Core.List.{Perm}
use mathlib.Core.List.Perm
use net_cat.Server.{Server}
use net_cat.Server.Rooms.{get_room_names, get_room_client_names}

-- The names in another order, which is that of their bytes.
abbrev pub IsListing : List Bytes → List Bytes → Type 0
IsListing names listed = Perm listed names × Ascends (λ (n : Bytes). n) listed

-- `GetRoomNames` lists the names of all rooms, in byte order, and nothing else.
pub get_room_names-IsListing : (s : Server) → IsListing (keys s.rooms) (get_room_names s)
unfolding get_room_names
get_room_names-IsListing s = (
  insertion_sort-perm (λ (n : Bytes). n) (keys s.rooms),
  insertion_sort-Ascends (λ (n : Bytes). n) (keys s.rooms),
)

-- `GetRoomClientNames` lists the members of a room that is there, in byte order, and none for a
-- room that is not.
pub get_room_client_names-IsListing :
    (room : Bytes) (s : Server)
    → IsListing
        (elim (lookup room s.rooms) [ none ↦ [] | some r ↦ keys r.clients ])
        (get_room_client_names room s)
unfolding get_room_client_names
get_room_client_names-IsListing room s =
    elim (lookup room s.rooms)
      as (λ o.
        IsListing (elim o [ none ↦ [] | some r ↦ keys r.clients ])
          (elim o [ none ↦ [] | some r ↦ insertion_sort (λ (n : Bytes). n) (keys r.clients) ])) [
            | none ↦ (Perm.rfl, tt)
            | some r ↦ (
              insertion_sort-perm (λ (n : Bytes). n) (keys r.clients),
              insertion_sort-Ascends (λ (n : Bytes). n) (keys r.clients),
            )
          ]
