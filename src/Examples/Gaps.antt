-- ===== src/Examples/Gaps.antt =====
-- `/switch` and `/create` with steps of others in their gap.
use net_cat.Base.{codes, bytes_eq, suc, false, ◌≡◌, ◌≢◌, ◌≤◌, [], refl, none, arith}
use net_cat.Base.Assoc.{lookup, insert, delete}
use net_cat.Server.{Server, max_active_clients, new_room, on_client}
use net_cat.Server.Names.{validate_room_name}
use net_cat.Server.Rooms.{
  get_room_client_count, join_room, enter_room, drop_member, put_room, get_or_create_room,
}
use net_cat.Server.Clients.{remove_client, drop_client}
use net_cat.Server.Index.{index}
use net_cat.Server.Commands.Gap.{cmd_switch_across, cmd_create_across, cmd_switch_across-count}
use net_cat.Server.Commands.Gap.Exact.{cmd_create_across-adds}
use net_cat.Examples.Sessions.{late, pair}

dev-before : get_room_client_count (codes "dev") pair ≤ max_active_clients
unfolding get_room_client_count lookup codes bytes_eq
dev-before = omega arith

-- Someone leaves in the gap.
abbrev ann_leaves : Server → Server
ann_leaves s = remove_client (codes "ann") s

dev-after : get_room_client_count (codes "dev") (ann_leaves pair) ≤ max_active_clients
unfolding remove_client drop_client drop_member put_room get_room_client_count lookup insert delete
    codes bytes_eq
dev-after = omega arith

dev-quiet :
    get_room_client_count (codes "dev") (ann_leaves pair) ≤ get_room_client_count (codes "dev") pair
unfolding remove_client drop_client drop_member put_room get_room_client_count lookup insert delete
    codes bytes_eq
dev-quiet = omega arith

cmd_switch_across-count_example :
    get_room_client_count (codes "dev") (cmd_switch_across ann_leaves late 1 (codes "dev") pair)
    ≤ max_active_clients
cmd_switch_across-count_example =
    cmd_switch_across-count ann_leaves (codes "dev") late 1 pair dev-before dev-after (codes "dev")
      dev-quiet

-- Someone else enters the room in the gap.
abbrev ann_enters : Server → Server
ann_enters s = join_room 0 (codes "dev") s

dev-given : codes "dev" ≢ []
unfolding codes
dev-given h = cc

dev-valid : validate_room_name (codes "dev") ≡ none
unfolding validate_room_name codes bytes_eq
dev-valid = refl

dev-new : lookup (codes "dev") pair.rooms ≡ none
unfolding lookup codes bytes_eq
dev-new = refl

dev-absent :
    (index (ann_enters pair)).member_at (codes "dev") ((ann_enters pair).heap 1).username ≡ none
unfolding index join_room enter_room drop_member put_room get_or_create_room new_room on_client
    lookup insert delete codes bytes_eq
dev-absent = refl

dev-elsewhere : bytes_eq ((ann_enters pair).heap 1).room (codes "dev") ≡ false
unfolding join_room enter_room drop_member put_room get_or_create_room new_room on_client lookup
    insert delete codes bytes_eq
dev-elsewhere = refl

cmd_create_across-adds_example :
    get_room_client_count (codes "dev") (cmd_create_across ann_enters late 1 (codes "dev") pair)
    ≡ suc (get_room_client_count (codes "dev") (ann_enters pair))
cmd_create_across-adds_example =
    cmd_create_across-adds ann_enters late 1 (codes "dev") pair dev-given dev-valid dev-new
      dev-absent dev-elsewhere
