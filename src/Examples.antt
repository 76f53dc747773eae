-- ===== src/Examples.antt =====
-- Concrete inputs for the theorems: texts here, sessions of a server in the child.
pub mod Sessions
pub mod Rules
pub mod Gaps
pub mod Lives
pub mod Runs
use net_cat.Base.{
  Bytes, codes, bytes_eq, ℕ, ◌≤◌, ◌≡◌, ◌≢◌, ◌↔◌, refl, Bool, true, false, List, [], ◌∷◌, ◌++◌, map,
  Option, none, some, inl, inr, if◌then◌else◌, All, arith,
}
use net_cat.Base.Decimal.{decimal, padded, value, IsDigit}
use net_cat.Models.{Time, Message, chat}
use net_cat.Models.Format.{format_timestamp, format_log_line}
use net_cat.Models.Parse.{ok, parse_log_line}
use net_cat.Models.RoundTrip.{parse-format}
use net_cat.Models.RoundTrip.Loggable.{IsLoggable}
use net_cat.Cmd.{parse_command}
use net_cat.Cmd.Laws.{parse_command_words, parse_command_bare}
use net_cat.Client.{Client, new_client, set_echo_mode}
use net_cat.Client.Write.{write_loop}
use net_cat.Client.Read.{read_byte, read_line_interactive}
use net_cat.Client.Continuity.{IsTracking, pending, IsTyped, read_byte-IsTracking, read_line_crlf}
use net_cat.Logger.{Disk, Logger, new_logger, log_message, content_of}
use net_cat.Logger.Laws.{IsOpen, day_path, log_message-appends}
use net_cat.Port.{is_valid_port}
use net_cat.Port.Laws.{is_valid_port_iff, is_valid_port-decimal}
use net_cat.Server.Names.{validate_name, validate_room_name}
use net_cat.Server.Names.Laws.{IsName, validate_name_iff, validate_room_name_iff}

abbrev pub noon : Time
noon = record { year = 2026; month = 3; day = 14; hour = 12; minute = 0; second = 5 }

-- A reader of timestamps that knows one of them.
abbrev pub read_noon : Bytes → Option Time
read_noon text = if bytes_eq text (codes "2026-03-14 12:00:05") then some noon else none

abbrev pub hello : Message
hello = record {
  timestamp = noon;
  sender = codes "ann";
  content = codes "hi all";
  type = chat;
  extra = [];
  room = codes "dev";
}

pub hello-IsLoggable : IsLoggable hello
unfolding codes
hello-IsLoggable = record { fields = ground arith; room_word = ground arith }

pub read_noon-noon : read_noon (format_timestamp noon) ≡ some noon
unfolding format_timestamp bytes_eq codes decimal padded
read_noon-noon = refl

parse-format_example : parse_log_line read_noon (format_log_line hello) ≡ ok hello
parse-format_example = parse-format read_noon hello hello-IsLoggable read_noon-noon

parse_command_words_example :
    parse_command (b'/' ∷ (codes "kick" ++ b' ' ∷ codes "bob")) ≡ some (codes "kick", codes "bob")
unfolding codes
parse_command_words_example =
    parse_command_words (codes "kick") b'b' (codes "ob") (λ e. cc) (ground arith) (ground arith)
      (ground arith)

parse_command_bare_example : parse_command (b'/' ∷ codes "list") ≡ some (codes "list", [])
unfolding codes
parse_command_bare_example = parse_command_bare (codes "list") (ground arith)

-- A client that echoes, with nothing typed.
abbrev echoing : Client
echoing = set_echo_mode true (new_client (codes "10.0.0.7:5000"))

echoing-IsTracking : IsTracking [] echoing
unfolding set_echo_mode new_client
echoing-IsTracking = record { echoing = refl; open_conn = refl; drained = refl; copied = refl }

read_byte-IsTracking_example :
    IsTracking (pending (read_byte b'h' echoing []).1) (write_loop (read_byte b'h' echoing []).0)
read_byte-IsTracking_example = read_byte-IsTracking b'h' [] echoing echoing-IsTracking (omega arith)

abbrev fresh : Client
fresh = new_client (codes "10.0.0.7:5000")

fresh-skip_lf : fresh.skip_lf ≡ false
unfolding new_client
fresh-skip_lf = refl

read_line_crlf_example :
    (d : Client) × (read_line_interactive (codes "hi" ++ 13 ∷ 10 ∷ codes "x") fresh
      ≡ (d, some (codes "hi", 10 ∷ codes "x")))
    × (read_line_interactive (10 ∷ codes "x") d
        ≡ read_line_interactive (codes "x") (record d { skip_lf = false }))
unfolding codes
read_line_crlf_example = read_line_crlf (codes "hi") (codes "x") fresh (ground arith) fresh-skip_lf

abbrev pub logger : Logger
logger = new_logger (codes "logs")

abbrev pub empty_disk : Disk
empty_disk = record { files = []; can_open = λ p. true; can_write = λ p. true }

logger-IsOpen : IsOpen logger
unfolding new_logger
logger-IsOpen = record { dated = inl refl }

logger-closed : logger.closed ≡ false
unfolding new_logger
logger-closed = refl

log_message-appends_example :
    content_of (day_path logger hello) (log_message hello logger empty_disk).1.files ≡ (
      if bytes_eq (day_path logger hello) (day_path logger hello)
      then content_of (day_path logger hello) [] ++ (format_log_line hello ++ 10 ∷ [])
      else content_of (day_path logger hello) [])
log_message-appends_example =
    log_message-appends hello logger empty_disk (day_path logger hello) logger-IsOpen logger-closed
      refl refl

is_valid_port_iff_example :
    (is_valid_port (codes "8989") ≡ true)
    ↔ (All IsDigit (codes "8989") × (1 ≤ value 0 (codes "8989")) × (value 0 (codes "8989") ≤ 65535))
is_valid_port_iff_example = is_valid_port_iff (codes "8989")

validate_name_iff_example : (validate_name (codes "ann") ≡ none) ↔ IsName (codes "ann")
validate_name_iff_example = validate_name_iff (codes "ann")

validate_room_name_iff_example : (validate_room_name (codes "dev") ≡ none) ↔ IsName (codes "dev")
validate_room_name_iff_example = validate_room_name_iff (codes "dev")
