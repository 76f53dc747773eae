-- ===== src/Models/Parse.antt =====
-- `ParseLogLine` of models/message.go and its helpers.
use net_cat.Base.{
  Bytes, codes, index_byte, index_pair, trim_space, length, take, drop, ltb, leb, ℕ, suc, ◌+◌, ◌-◌,
  Bool, false, ◌||◌, not, ◌==◌, [], ◌∷◌, if◌then◌else◌, Option, none, some,
}
use net_cat.Base.Assoc.{Assoc, lookup}
use net_cat.Models.{
  Time, Message, chat, join, leave, name_change, announcement, moderation, server_event,
}

-- The errors that the functions build, by what they say.
pub data ParseError : Type 0 where
  empty_line missing_bracket malformed_timestamp no_content tag_without_keyword missing_keyword
        unknown_type :
      ParseError
  invalid_timestamp : Bytes → ParseError
  invalid_format no_closing_bracket : Bytes → ParseError

pub data Result {ℓ} (A : Type ℓ) : Type ℓ where
  ok : A → Result A
  err : ParseError → Result A

infixl 5 ◌>>=◌
abbrev pub ◌>>=◌ {ℓ κ} : {A : Type ℓ} {B : Type κ} → Result A → (A → Result B) → Result B
ok a >>= f = f a
err e >>= f = err e

-- `line[0] == c`, on a line that is not empty.
abbrev pub starts : ℕ → Bytes → Bool
starts c [] = false
starts c (b ∷ s) = b == c

split_room : Bytes → Option ℕ → Result (Bytes × Bytes)
split_room rest none = err tag_without_keyword
split_room rest (some i) = ok (take i (drop 1 rest), drop (suc (suc i)) rest)

-- `rest[1:spaceIdx]` counts from the `@`, as `i` counts behind it.
unfoldable pub parse_log_room_tag : Bytes → Result (Bytes × Bytes)
unfolding split_room
parse_log_room_tag rest =
    if starts b'@' rest then split_room rest (index_byte b' ' (drop 1 rest)) else ok ([], rest)

split_at_space : Bytes → Option ℕ → Bytes × Bytes
split_at_space rest none = (rest, [])
split_at_space rest (some i) = (take i rest, drop (suc i) rest)

unfoldable pub split_log_keyword : Bytes → Result (Bytes × Bytes)
unfolding split_at_space
split_log_keyword [] = err missing_keyword
split_log_keyword (b ∷ s) = ok (split_at_space (b ∷ s) (index_byte b' ' (b ∷ s)))

bracketed_at : Bytes → Bytes → Option ℕ → Result (Bytes × Bytes)
bracketed_at payload keyword none = err (no_closing_bracket keyword)
bracketed_at payload keyword (some i) =
    ok (take i (drop 1 payload), drop (suc (suc (suc i))) payload)

-- The first byte is `[`, so the index is one behind it at least: `i` counts from there.
unfoldable pub parse_bracketed_payload : Bytes → Bytes → Result (Bytes × Bytes)
unfolding bracketed_at
parse_bracketed_payload payload keyword =
    if ltb (length payload) 3 || not (starts b'[' payload)
    then err (invalid_format keyword)
    else bracketed_at payload keyword (index_pair b']' b':' (drop 1 payload))

unfoldable pub parse_chat_log_line : Time → Bytes → Bytes → Result Message
parse_chat_log_line ts payload room = do
  (sender, content) ← parse_bracketed_payload payload (codes "CHAT")
  ok (record {
    timestamp = ts;
    type = chat;
    sender = sender;
    content = content;
    extra = [];
    room = room;
  })

unfoldable pub parse_join_log_line : Time → Bytes → Bytes → Result Message
parse_join_log_line ts payload room = ok (record {
  timestamp = ts;
  type = join;
  sender = payload;
  content = [];
  extra = [];
  room = room;
})

leave_at : Time → Bytes → Bytes → Option ℕ → Message
leave_at ts payload room none = record {
  timestamp = ts;
  type = leave;
  sender = payload;
  content = [];
  extra = codes "voluntary";
  room = room;
}
leave_at ts payload room (some i) = record {
  timestamp = ts;
  type = leave;
  sender = take i payload;
  content = [];
  extra = drop (suc i) payload;
  room = room;
}

unfoldable pub parse_leave_log_line : Time → Bytes → Bytes → Result Message
unfolding leave_at
parse_leave_log_line ts payload room = ok (leave_at ts payload room (index_byte b' ' payload))

name_change_at : Time → Bytes → Bytes → Option ℕ → Result Message
name_change_at ts payload room none = err (invalid_format (codes "NAMECHANGE"))
name_change_at ts payload room (some i) = ok (record {
  timestamp = ts;
  type = name_change;
  sender = drop (suc i) payload;
  content = [];
  extra = take i payload;
  room = room;
})

unfoldable pub parse_name_change_log_line : Time → Bytes → Bytes → Result Message
unfolding name_change_at
parse_name_change_log_line ts payload room =
    name_change_at ts payload room (index_byte b' ' payload)

unfoldable pub parse_announcement_log_line : Time → Bytes → Bytes → Result Message
parse_announcement_log_line ts payload room = do
  (announcer, content) ← parse_bracketed_payload payload (codes "ANNOUNCE")
  ok (record {
    timestamp = ts;
    type = announcement;
    sender = [];
    content = content;
    extra = announcer;
    room = room;
  })

-- `strings.SplitN(payload, " ", 3)`, with `none` where it finds fewer than three fields.
second_cut : Bytes → Bytes → Option ℕ → Option (Bytes × Bytes × Bytes)
second_cut first rest none = none
second_cut first rest (some j) = some (first, take j rest, drop (suc j) rest)

first_cut : Bytes → Option ℕ → Option (Bytes × Bytes × Bytes)
first_cut payload none = none
first_cut payload (some i) =
    let rest = drop (suc i) payload in second_cut (take i payload) rest (index_byte b' ' rest)

unfoldable pub split_three : Bytes → Option (Bytes × Bytes × Bytes)
unfolding first_cut second_cut
split_three payload = first_cut payload (index_byte b' ' payload)

moderation_of : Time → Bytes → Option (Bytes × Bytes × Bytes) → Result Message
moderation_of ts room none = err (invalid_format (codes "MOD"))
moderation_of ts room (some (action, target, admin)) = ok (record {
  timestamp = ts;
  type = moderation;
  sender = target;
  content = action;
  extra = admin;
  room = room;
})

unfoldable pub parse_moderation_log_line : Time → Bytes → Bytes → Result Message
unfolding moderation_of
parse_moderation_log_line ts payload room = moderation_of ts room (split_three payload)

unfoldable pub parse_server_event_log_line : Time → Bytes → Bytes → Result Message
parse_server_event_log_line ts payload _ = ok (record {
  timestamp = ts;
  type = server_event;
  sender = [];
  content = payload;
  extra = [];
  room = [];
})

-- `logLineParsers`.
unfoldable pub log_line_parsers : Assoc (Time → Bytes → Bytes → Result Message)
log_line_parsers =
    (codes "CHAT", parse_chat_log_line)
    ∷ (codes "JOIN", parse_join_log_line)
    ∷ (codes "LEAVE", parse_leave_log_line)
    ∷ (codes "NAMECHANGE", parse_name_change_log_line)
    ∷ (codes "ANNOUNCE", parse_announcement_log_line)
    ∷ (codes "MOD", parse_moderation_log_line)
    ∷ (codes "SERVER", parse_server_event_log_line)
    ∷ []

abbrev pub run_parser :
    Option (Time → Bytes → Bytes → Result Message) → Time → Bytes → Bytes → Result Message
run_parser none ts payload room = err unknown_type
run_parser (some parser) ts payload room = parser ts payload room

-- `fmt.Sscanf` with the timestamp's format, followed by `time.Date` in the host's time zone.
module _ (read_time : Bytes → Option Time) where
  timestamp_at : Bytes → ℕ → Option Time → Result (Time × Bytes)
  timestamp_at line close none = err (invalid_timestamp (take (close - 1) (drop 1 line)))
  timestamp_at line close (some ts) =
      if leb (length line) (close + 2) then err no_content else ok (ts, drop (close + 2) line)

  close_at : Bytes → Option ℕ → Result (Time × Bytes)
  unfolding timestamp_at
  close_at line none = err malformed_timestamp
  close_at line (some close) =
      if ltb close 2
      then err malformed_timestamp
      else timestamp_at line close (read_time (take (close - 1) (drop 1 line)))

  unfoldable pub parse_log_timestamp : Bytes → Result (Time × Bytes)
  unfolding close_at
  parse_log_timestamp line =
      if not (starts b'[' line) then err missing_bracket else close_at line (index_byte b']' line)

  unfoldable pub parse_trimmed : Bytes → Result Message
  parse_trimmed [] = err empty_line
  parse_trimmed (b ∷ s) = do
    (ts, tagged) ← parse_log_timestamp (b ∷ s)
    (room, rest) ← parse_log_room_tag tagged
    (keyword, payload) ← split_log_keyword rest
    run_parser (lookup keyword log_line_parsers) ts payload room

  -- `ParseLogLine`.
  unfoldable pub parse_log_line : Bytes → Result Message
  unfolding parse_trimmed
  parse_log_line line = parse_trimmed (trim_space line)
