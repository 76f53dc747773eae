-- ===== src/Examples/Sessions.antt =====
-- A server with two clients in a room and a third that has no name yet, and what they and the
-- operator do there.
use net_cat.Base.{
  Bytes, codes, bytes_eq, bytes_eq_iff, ◌≡◌, refl, true, false, ◌==◌, [], ◌∷◌, none, some, inr,
  if◌then◌else◌, arith,
}
use net_cat.Base.Assoc.{lookup, insert, delete}
use net_cat.Base.Heap.{update}
use net_cat.Server.Index.Frame.{SameRooms}
use net_cat.Logger.{Disk}
use net_cat.Client.{Client, new_client}
use net_cat.Server.{Server, Now, Room, is_set, new_server}
use net_cat.Server.Rooms.{join_room}
use net_cat.Server.Clients.{add_client, register_client, remove_client, rename_client, swap_name}
use net_cat.Server.Session.{chatting, joining, eof}
use net_cat.Server.Session.Steps.{on_line, on_read_error, on_join}
use net_cat.Server.Operator.Dispatch.{operator_dispatch}
use net_cat.Server.Index.{index, IsConsistent}
use net_cat.Server.Index.Spec.{take_name, drop_name, move, rename}
use net_cat.Server.Index.Change.{register_client-take_name, remove_client-drop_name, join_room-move}
use net_cat.Server.Consistency.{new_server-IsConsistent}
use net_cat.Server.Consistency.SessionSteps.{
  on_line-IsConsistent, on_read_error-IsConsistent, on_join-IsConsistent,
}
use net_cat.Server.Consistency.OperatorLines.{operator_dispatch-IsConsistent}
use net_cat.Server.Index.Rename.{rename_client-rename}
use net_cat.Examples.{noon}

abbrev pub early : Now
early = record { instant = 1_000; local = noon }

abbrev pub late : Now
late = record { instant = 400_000_000_000; local = noon }

abbrev pub someone : Client
someone = new_client (codes "10.0.0.7:5000")

abbrev pub ann : Client
ann = record someone { username = codes "ann"; room = codes "general"; admin = true }

abbrev pub bob : Client
bob = record someone { username = codes "bob"; room = codes "general" }

abbrev pub disk : Disk
disk = record { files = []; can_open = λ p. true; can_write = λ p. true }

abbrev pub start : Server
start = new_server (codes "8989") early (λ i. someone) disk none

abbrev pub general : Room
general = record {
  name = codes "general";
  clients = (codes "ann", 0) ∷ (codes "bob", 1) ∷ [];
  history = [];
  queue = record { client = 2; id = 0 } ∷ [];
}

abbrev pub pair : Server
pair = record {
  port = codes "8989";
  clients = (codes "ann", 0) ∷ (codes "bob", 1) ∷ [];
  all_clients = 2 ∷ 1 ∷ 0 ∷ [];
  rooms = (codes "general", general) ∷ [];
  default_room = codes "general";
  reserved_names = (codes "Server", true) ∷ [];
  quit = false;
  logger = none;
  start_time = 0;
  kicked_ips = [];
  banned_ips = [];
  admins = (codes "ann", true) ∷ [];
  admins_file = codes "admins.json";
  operator_output = [];
  heap = λ i. if i == 0 then ann else if i == 1 then bob else someone;
  disk = disk;
  admins_disk = none;
  admitted = [];
  next_entry = 1;
}

start-IsConsistent : IsConsistent (index start)
start-IsConsistent = new_server-IsConsistent (codes "8989") early (λ i. someone) disk none

pub pair-IsConsistent : IsConsistent (index pair)
unfolding index lookup codes bytes_eq
pair-IsConsistent = record {
  named = λ n i h. ground (arith, bytes_eq_iff (codes "ann") n, bytes_eq_iff (codes "bob") n);
  member_named = λ r n i h. ground arith;
  member_placed = λ r n i h. ground (arith, bytes_eq_iff (codes "general") r);
  placed = λ n i h k. ground (arith, bytes_eq_iff (codes "ann") n, bytes_eq_iff (codes "bob") n);
  outside = λ n. refl;
  unreserved = λ n i h. ground (arith, bytes_eq_iff (codes "ann") n, bytes_eq_iff (codes "bob") n);
}

bob-held : lookup (pair.heap 1).username pair.clients ≡ some 1
unfolding lookup codes bytes_eq
bob-held = refl

on_line-IsConsistent_example :
    IsConsistent (index (on_line late 1 chatting (codes "/name rob") pair).1)
on_line-IsConsistent_example =
    on_line-IsConsistent late 1 chatting (codes "/name rob") pair pair-IsConsistent
      (unfold index in bob-held)

operator_dispatch-IsConsistent_example :
    IsConsistent (index (operator_dispatch late (codes "/ban bob") pair))
operator_dispatch-IsConsistent_example =
    operator_dispatch-IsConsistent late (codes "/ban bob") pair pair-IsConsistent

on_read_error-IsConsistent_example : IsConsistent (index (on_read_error late 1 chatting eof pair).1)
on_read_error-IsConsistent_example =
    on_read_error-IsConsistent late 1 chatting eof pair pair-IsConsistent

on_join-IsConsistent_example : IsConsistent (index (on_join late 1 (joining (codes "dev")) pair).1)
unfolding codes
on_join-IsConsistent_example =
    on_join-IsConsistent late 1 (joining (codes "dev")) pair pair-IsConsistent
      ((unfold index in bob-held), λ e. cc)

cy : Bytes
cy = codes "cy"

cy-registers : register_client late 2 cy pair ≡ inr (add_client late 2 cy pair)
unfolding register_client lookup bytes_eq codes cy
cy-registers = refl

register_client-take_name_example :
    (lookup cy pair.clients ≡ none)
    × (is_set cy pair.reserved_names ≡ false)
    × (index (add_client late 2 cy pair) ≡ take_name 2 cy (index pair))
register_client-take_name_example =
    register_client-take_name late 2 cy pair (add_client late 2 cy pair) cy-registers

bob-found : lookup (codes "bob") pair.clients ≡ some 1
unfolding lookup codes bytes_eq
bob-found = refl

remove_client-drop_name_example :
    (let t = remove_client (codes "bob") pair in
      (index t ≡ drop_name 1 (codes "bob") (index pair))
      × (t ≡ record pair { clients = delete (codes "bob") pair.clients; rooms = t.rooms })
      × SameRooms t pair)
remove_client-drop_name_example =
    remove_client-drop_name 1 (codes "bob") pair pair-IsConsistent bob-found

join_room-move_example : index (join_room 1 (codes "dev") pair) ≡ move 1 (codes "dev") (index pair)
join_room-move_example = join_room-move 1 (codes "dev") pair pair-IsConsistent

bob-renames : rename_client 1 (codes "bob") cy pair ≡ some (swap_name 1 (codes "bob") cy pair)
unfolding rename_client lookup bytes_eq codes cy
bob-renames = refl

rename_client-rename_example :
    (let t = swap_name 1 (codes "bob") cy pair in
      (lookup cy pair.clients ≡ none)
      × (is_set cy pair.reserved_names ≡ false)
      × (index t ≡ rename 1 (codes "bob") cy (index pair))
      × (t ≡ record pair {
        clients = insert cy 1 (delete (codes "bob") pair.clients);
        rooms = t.rooms;
        heap = update pair.heap 1 (record (pair.heap 1) { username = cy });
      })
      × SameRooms t pair)
rename_client-rename_example =
    rename_client-rename 1 (codes "bob") cy pair (swap_name 1 (codes "bob") cy pair)
      pair-IsConsistent bob-found bob-renames
