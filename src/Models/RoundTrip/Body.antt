-- ===== src/Models/RoundTrip/Body.antt =====
-- Reading back what stands behind the timestamp and the room tag.
use net_cat.Base.{
  Bytes, codes, bytes_eq, bytes_eq_ne, Bytes-cases, subst, ℕ, ◌≡◌, inl, inr, ◌∙◌, [], ◌∷◌, ◌++◌,
  arith, some, take-append, drop-append_suc, drop-append_two, length-append,
}
use net_cat.Base.Assoc.{lookup}
use net_cat.Base.TextLaws.{
  Lacks, LacksPair, EndsClean, EndsClean-append, index_byte-append, index_pair-append,
}
use net_cat.Models.{
  Time, Message, MessageType, chat, join, leave, name_change, announcement, moderation,
  server_event, other,
}
use net_cat.Models.Format.{log_body, leave_reason}
use net_cat.Models.Parse.{
  Result, ok, ◌>>=◌, split_log_keyword, run_parser, log_line_parsers, parse_bracketed_payload,
  parse_chat_log_line, parse_join_log_line, parse_leave_log_line, parse_name_change_log_line,
  parse_announcement_log_line, parse_moderation_log_line, parse_server_event_log_line, split_three,
}
use net_cat.Models.RoundTrip.Loggable.{LoggableAs, EmptyOrClean}

abbrev pub parse_body : Bytes → Time → Bytes → Result Message
parse_body rest ts room = do
  (keyword, payload) ← split_log_keyword rest
  run_parser (lookup keyword log_line_parsers) ts payload room

-- The keyword is what stands in front of the first space.
split-keyword :
    (b : ℕ) (k payload : Bytes)
    → Lacks b' ' (b ∷ k)
    → split_log_keyword (b ∷ k ++ b' ' ∷ payload) ≡ ok (b ∷ k, payload)
unfolding split_log_keyword
split-keyword b k payload h = rw (
  index_byte-append b' ' (b ∷ k) payload h,
  take-append (b ∷ k) (b' ' ∷ payload),
  drop-append_suc k b' ' payload,
)

bracketed :
    (s t keyword : Bytes)
    → LacksPair b']' b':' s
    → parse_bracketed_payload (b'[' ∷ (s ++ b']' ∷ b':' ∷ t)) keyword ≡ ok (s, t)
unfolding parse_bracketed_payload
bracketed s t keyword h = ground (
  arith,
  length-append s (b']' ∷ b':' ∷ t),
  index_pair-append b']' b':' s t (omega arith) h,
  take-append s (b']' ∷ b':' ∷ t),
  drop-append_two s b']' b':' t,
)

split-leave :
    (ts : Time) (s t room : Bytes)
    → Lacks b' ' s
    → parse_leave_log_line ts (s ++ b' ' ∷ t) room
      ≡ ok (record {
        timestamp = ts;
        type = leave;
        sender = s;
        content = [];
        extra = t;
        room = room;
      })
unfolding parse_leave_log_line
split-leave ts s t room h =
    rw (index_byte-append b' ' s t h, take-append s (b' ' ∷ t), drop-append_suc s b' ' t)

split-name_change :
    (ts : Time) (s t room : Bytes)
    → Lacks b' ' s
    → parse_name_change_log_line ts (s ++ b' ' ∷ t) room
      ≡ ok (record {
        timestamp = ts;
        type = name_change;
        sender = t;
        content = [];
        extra = s;
        room = room;
      })
unfolding parse_name_change_log_line
split-name_change ts s t room h =
    rw (index_byte-append b' ' s t h, take-append s (b' ' ∷ t), drop-append_suc s b' ' t)

split-moderation :
    (s t u : Bytes)
    → Lacks b' ' s
    → Lacks b' ' t
    → split_three (s ++ b' ' ∷ (t ++ b' ' ∷ u)) ≡ some (s, t, u)
unfolding split_three
split-moderation s t u h k = rw (
  index_byte-append b' ' s (t ++ b' ' ∷ u) h,
  take-append s (b' ' ∷ (t ++ b' ' ∷ u)),
  drop-append_suc s b' ' (t ++ b' ' ∷ u),
  index_byte-append b' ' t u k,
  take-append t (b' ' ∷ u),
  drop-append_suc t b' ' u,
)

parse-keyword :
    (b : ℕ) (k payload : Bytes) (ts : Time) (room : Bytes)
    → Lacks b' ' (b ∷ k)
    → parse_body (b ∷ k ++ b' ' ∷ payload) ts room
      ≡ run_parser (lookup (b ∷ k) log_line_parsers) ts payload room
parse-keyword b k payload ts room h = rw (split-keyword b k payload h)

leave_reason_kept : (m : Message) → EndsClean m.extra → leave_reason m ≡ m.extra
unfolding leave_reason
leave_reason_kept m h = elim (Bytes-cases m.extra []) [
  | inl e ↦ absurd (subst EndsClean e h)
  | inr n ↦ rw (bytes_eq_ne m.extra [] n)
]

EndsClean-behind :
    (k s : Bytes) (b : ℕ) (t : Bytes) → EndsClean (b ∷ t) → EndsClean (k ++ (s ++ b ∷ t))
EndsClean-behind k s b t h = EndsClean-append k (s ++ b ∷ t) (EndsClean-append s (b ∷ t) h)

-- The colon is printable, so nothing behind it is needed.
closed : (b : ℕ) (s : Bytes) → EmptyOrClean s → EndsClean (b ∷ b':' ∷ s)
closed b [] h = omega arith
closed b (c ∷ s) (inl e) = cc
closed b (c ∷ s) (inr h) = h

-- The body of each kind of message is parsed to that message.
module _ (ts : Time) (sender content extra room : Bytes) where
  abbrev pub of_type : MessageType → Message
  of_type k = record {
    timestamp = ts;
    type = k;
    sender = sender;
    content = content;
    extra = extra;
    room = room;
  }

  pub body-parse :
      (k : MessageType)
      → LoggableAs k (of_type k)
      → parse_body (log_body k (of_type k)) ts room ≡ ok (of_type k)
  unfolding log_body leave_reason codes log_line_parsers lookup bytes_eq
  body-parse chat h =
      parse-keyword b'C' (codes "HAT") (b'[' ∷ (sender ++ b']' ∷ b':' ∷ content)) ts room
        (omega arith)
      ∙ unfold parse_chat_log_line in rw (bracketed sender content (codes "CHAT") h.0, h.2)
  body-parse join h =
      parse-keyword b'J' (codes "OIN") sender ts room (omega arith)
      ∙ unfold parse_join_log_line in rw (h.1, h.2)
  body-parse leave h = rw (leave_reason_kept (of_type leave) h.2) (
      parse-keyword b'L' (codes "EAVE") (sender ++ b' ' ∷ extra) ts room (omega arith)
      ∙ rw (split-leave ts sender extra room h.0, h.1))
  body-parse name_change h =
      parse-keyword b'N' (codes "AMECHANGE") (extra ++ b' ' ∷ sender) ts room (omega arith)
      ∙ rw (split-name_change ts extra sender room h.0, h.2)
  body-parse announcement h =
      parse-keyword b'A' (codes "NNOUNCE") (b'[' ∷ (extra ++ b']' ∷ b':' ∷ content)) ts room
        (omega arith)
      ∙ unfold parse_announcement_log_line in
        rw (bracketed extra content (codes "ANNOUNCE") h.0, h.2)
  body-parse moderation h =
      parse-keyword b'M' (codes "OD") (content ++ b' ' ∷ (sender ++ b' ' ∷ extra)) ts room
        (omega arith)
      ∙ unfold parse_moderation_log_line in rw (split-moderation content sender extra h.0 h.1)
  body-parse server_event h =
      parse-keyword b'S' (codes "ERVER") content ts room (omega arith)
      ∙ unfold parse_server_event_log_line in rw (h.1, h.2, h.3)
  body-parse (other n) h = absurd h

  -- It ends in a byte that trimming leaves.
  pub log_body-EndsClean :
      (k : MessageType) → LoggableAs k (of_type k) → EndsClean (log_body k (of_type k))
  unfolding log_body codes
  log_body-EndsClean chat h =
      EndsClean-behind (codes "CHAT [") sender b']' (b':' ∷ content) (closed b']' content h.1)
  log_body-EndsClean join h = EndsClean-append (codes "JOIN ") sender h.0
  log_body-EndsClean leave h =
      rw (leave_reason_kept (of_type leave) h.2) (
        EndsClean-behind (codes "LEAVE ") sender b' ' extra
          (EndsClean-append (b' ' ∷ []) extra h.2))
  log_body-EndsClean name_change h =
      EndsClean-behind (codes "NAMECHANGE ") extra b' ' sender
        (EndsClean-append (b' ' ∷ []) sender h.1)
  log_body-EndsClean announcement h =
      EndsClean-behind (codes "ANNOUNCE [") extra b']' (b':' ∷ content) (closed b']' content h.1)
  log_body-EndsClean moderation h =
      EndsClean-behind (codes "MOD ") content b' ' (sender ++ b' ' ∷ extra)
        (EndsClean-behind (b' ' ∷ []) sender b' ' extra (EndsClean-append (b' ' ∷ []) extra h.2))
  log_body-EndsClean server_event h = EndsClean-append (codes "SERVER ") content h.0
  log_body-EndsClean (other n) h = absurd h
