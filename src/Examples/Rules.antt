-- ===== src/Examples/Rules.antt =====
-- Chat, queues, moderation, rights, capacity, shutdown and recovery on the server of `Sessions`.
use net_cat.Base.{
  codes, bytes_eq, index_byte, ltb, ◌≡◌, refl, true, false, ◌&&◌, [], ◌∷◌, ◌++◌, map, some,
  if◌then◌else◌, arith,
}
use net_cat.Base.Assoc.{keys}
use net_cat.Models.Format.{format_log_line, format_timestamp, room_tag, log_body}
use net_cat.Client.{new_client}
use net_cat.Server.{is_set}
use net_cat.Server.Names.{extract_host}
use net_cat.Server.Rooms.{get_room_names, admit_from_room_queue, get_room_history, next_open}
use net_cat.Server.Rooms.Queue.{IsNext, next_open-IsNext}
use net_cat.Server.Clients.{has}
use net_cat.Server.Moderation.{add_kick_cooldown, add_ban_ip, is_ip_blocked}
use net_cat.Server.Moderation.Laws.{
  add_kick_cooldown-is_ip_blocked, add_ban_ip-is_ip_blocked, is_ip_blocked-twice,
}
use net_cat.Server.Commands.{chat_message, handle_chat_message}
use net_cat.Server.Commands.Chat.{is_sent_on, handle_chat_message-history}
use net_cat.Server.History.{recover_lines, recover_file}
use net_cat.Server.History.Recovery.{recovered_in, recover_lines-history}
use net_cat.Server.Session.{reject_connection, check_or_queue_room, abandon, chatting}
use net_cat.Server.Session.Steps.{on_line}
use net_cat.Server.Shutdown.{begin_shutdown}
use net_cat.Server.Shutdown.Laws.{begin_shutdown-stops}
use net_cat.Server.Rooms.Listing.{IsListing, get_room_names-IsListing}
use net_cat.Base.Decimal.{padded, decimal}
use net_cat.Base.Scanner.{joined}
use net_cat.Server.History.Scan.{IsLine, recover_file-history}
use net_cat.Server.Rights.{rights}
use net_cat.Server.Rights.Connections.{on_line-rights}
use net_cat.Examples.{hello, hello-IsLoggable, read_noon, read_noon-noon}
use net_cat.Examples.Sessions.{late, pair, general, early}

handle_chat_message-history_example :
    get_room_history (codes "general") (handle_chat_message late 1 (codes "hello") pair) ≡ (
      if is_sent_on 1 (codes "hello") pair && bytes_eq (codes "general") (codes "general")
      then get_room_history (codes "general") pair
        ++ record (chat_message late (codes "bob") (codes "hello")) { room = codes "general" } ∷ []
      else get_room_history (codes "general") pair)
handle_chat_message-history_example =
    handle_chat_message-history late 1 (codes "hello") (codes "general") pair

recover_lines-history_example :
    get_room_history (codes "dev") (recover_lines read_noon (map format_log_line (hello ∷ [])) pair)
    ≡ get_room_history (codes "dev") pair
      ++ recovered_in (codes "dev") (codes "general") (hello ∷ [])
recover_lines-history_example =
    recover_lines-history read_noon (codes "dev") (hello ∷ []) pair
      ((hello-IsLoggable, read_noon-noon), tt)

next_open-IsNext_example : IsNext pair.heap general.queue (next_open pair.heap general.queue)
next_open-IsNext_example = next_open-IsNext pair.heap general.queue

add_kick_cooldown-is_ip_blocked_example :
    has
      (is_ip_blocked late
        (codes "10.0.0.7:5001")
        (add_kick_cooldown early (codes "10.0.0.7:5000") pair)).0
    ≡ (if is_set (extract_host (codes "10.0.0.7:5000")) []
        then true
        else ltb 400_000_000_000 300_000_001_000)
unfolding extract_host codes index_byte
add_kick_cooldown-is_ip_blocked_example =
    add_kick_cooldown-is_ip_blocked early late (codes "10.0.0.7:5000") (codes "10.0.0.7:5001") pair
      refl

add_ban_ip-is_ip_blocked_example :
    is_ip_blocked late (codes "10.0.0.7:5001") (add_ban_ip (codes "10.0.0.7:5000") pair)
    ≡ (some (codes "You are banned from this server.\n"), add_ban_ip (codes "10.0.0.7:5000") pair)
unfolding extract_host codes index_byte
add_ban_ip-is_ip_blocked_example =
    add_ban_ip-is_ip_blocked late (codes "10.0.0.7:5000") (codes "10.0.0.7:5001") pair refl

is_ip_blocked-twice_example :
    (is_ip_blocked late
      (codes "10.0.0.7:5001")
      (is_ip_blocked early (codes "10.0.0.7:5000") pair).1).0
    ≡ (is_ip_blocked late (codes "10.0.0.7:5001") pair).0
is_ip_blocked-twice_example =
    is_ip_blocked-twice early late (codes "10.0.0.7:5000") (codes "10.0.0.7:5001") pair refl

bob-plain : (pair.heap 1).admin ≡ false
unfolding new_client
bob-plain = refl

on_line-rights_example : rights (on_line late 1 chatting (codes "/ban ann") pair).1 ≡ rights pair
on_line-rights_example = on_line-rights late 1 chatting (codes "/ban ann") pair refl bob-plain

begin_shutdown-stops_example :
    ((reject_connection late 2 (begin_shutdown pair)).0 ≡ true)
    × (admit_from_room_queue (codes "general") (begin_shutdown pair) ≡ begin_shutdown pair)
    × (check_or_queue_room 2 (codes "general") (begin_shutdown pair)
        ≡ abandon 2 (begin_shutdown pair))
begin_shutdown-stops_example = begin_shutdown-stops late 2 (codes "general") pair

get_room_names-IsListing_example : IsListing (keys pair.rooms) (get_room_names pair)
get_room_names-IsListing_example = get_room_names-IsListing pair

hello-IsLine : IsLine (format_log_line hello)
unfolding format_log_line format_timestamp room_tag log_body codes padded decimal
hello-IsLine = ground arith

recover_file-history_example :
    get_room_history
      (codes "dev")
      (recover_file read_noon (some (joined (map format_log_line (hello ∷ [])))) pair)
    ≡ get_room_history (codes "dev") pair
      ++ recovered_in (codes "dev") (codes "general") (hello ∷ [])
recover_file-history_example =
    recover_file-history read_noon (codes "dev") (hello ∷ []) pair
      ((hello-IsLoggable, read_noon-noon), tt) (hello-IsLine, tt)
