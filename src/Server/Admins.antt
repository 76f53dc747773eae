-- ===== src/Server/Admins.antt =====
-- server/admins.go. The file is the list of names that its JSON array holds, `none` where it is
-- missing or no such array.
use net_cat.Base.{Bytes, bytes_eq, Bool, true, List, [], ◌∷◌, none, some, if◌then◌else◌}
use net_cat.Base.Assoc.{Assoc, insert, delete, keys}
use net_cat.Base.Sort.{insertion_sort}
use net_cat.Server.{Server, is_set}

set_all : List Bytes → Assoc Bool → Assoc Bool
set_all [] m = m
set_all (n ∷ ns) m = set_all ns (insert n true m)

unfoldable pub load_admins : Server → Server
unfolding set_all
load_admins s =
    if bytes_eq s.admins_file []
    then s
    else elim s.admins_disk [ none ↦ s | some names ↦ record s { admins = set_all names s.admins } ]

-- Written through a temporary file; where the disk refuses, the old file stays.
unfoldable pub save_admins : Server → Server
save_admins s =
    if bytes_eq s.admins_file []
    then s
    else if s.disk.can_write s.admins_file
    then record s { admins_disk = some (insertion_sort (λ (n : Bytes). n) (keys s.admins)) }
    else s

unfoldable pub is_known_admin : Bytes → Server → Bool
is_known_admin name s = is_set name s.admins

unfoldable pub add_admin : Bytes → Server → Server
add_admin name s = save_admins (record s { admins = insert name true s.admins })

unfoldable pub remove_admin : Bytes → Server → Server
remove_admin name s = save_admins (record s { admins = delete name s.admins })

unfoldable pub rename_admin : Bytes → Bytes → Server → Server
rename_admin old_name new_name s = save_admins (
    if is_set old_name s.admins
    then record s { admins = insert new_name true (delete old_name s.admins) }
    else s)
