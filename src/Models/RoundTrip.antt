-- ===== src/Models/RoundTrip.antt =====
-- `ParseLogLine` against `FormatLogLine`, models/message.go.
pub mod Loggable
pub mod Body
use net_cat.Base.{
  Bytes, codes, bytes_eq, bytes_eq_ne, bytes_eq_iff, bytes_eq_refl, Bytes-cases, length, take, drop,
  leb, ltb, ℕ, suc, ◌+◌, ◌-◌, ◌≤◌, ◌<◌, ◌≡◌, ◌≢◌, inl, inr, refl, ap, sym, ◌∙◌, subst, true, false,
  [], ◌∷◌, ◌++◌, arith, some, none, Option, index_byte, ◌||◌, if◌then◌else◌, take-append,
  drop-append_two, length-append, trim_space, All, All-append, append_assoc, drop-append_suc,
}
use net_cat.Base.Decimal.{padded, IsDigit, padded-All}
use net_cat.Base.TextLaws.{Lacks, EndsClean, EndsClean-append, index_byte-append, trim_space_fix}
use net_cat.Models.{
  Time, Message, is_server_event, server_event, MessageType, chat, join, leave, name_change,
  announcement, moderation, other,
}
use net_cat.Models.Format.{format_timestamp, format_log_line, room_tag, log_body}
use net_cat.Models.Parse.{
  Result, ok, err, ◌>>=◌, starts, parse_log_room_tag, parse_log_timestamp, parse_trimmed,
  parse_log_line,
}
use net_cat.Models.RoundTrip.Loggable.{IsLoggable, LoggableAs}
use net_cat.Models.RoundTrip.Body.{of_type, parse_body, body-parse, log_body-EndsClean}

-- Digits hold no closing bracket.
digits-Lacks :
    (s : Bytes) (c : ℕ) (t : Bytes) → All IsDigit s → Lacks b']' (c ∷ t) → Lacks b']' (s ++ c ∷ t)
digits-Lacks [] c t h k = k
digits-Lacks (d ∷ s) c t h k = (omega arith, digits-Lacks s c t h.1 k)

digits-Lacks-All : (s : Bytes) → All IsDigit s → Lacks b']' s
digits-Lacks-All [] h = tt
digits-Lacks-All (d ∷ s) h = (omega arith, digits-Lacks-All s h.1)

timestamp-Lacks : (t : Time) → Lacks b']' (format_timestamp t)
unfolding format_timestamp
timestamp-Lacks t = digits-Lacks (padded 4 t.year) _ _ (padded-All 4 t.year) (
  omega arith,
  digits-Lacks (padded 2 t.month) _ _ (padded-All 2 t.month) (
    omega arith,
    digits-Lacks (padded 2 t.day) _ _ (padded-All 2 t.day) (
      omega arith,
      digits-Lacks (padded 2 t.hour) _ _ (padded-All 2 t.hour) (
        omega arith,
        digits-Lacks (padded 2 t.minute) _ _ (padded-All 2 t.minute)
            (omega arith, digits-Lacks-All (padded 2 t.second) (padded-All 2 t.second)),
      ),
    ),
  ),
)

timestamp_pos : (t : Time) → 0 < length (format_timestamp t)
unfolding format_timestamp
timestamp_pos t = omega (arith, length-append {0} (padded 4 t.year))

EndsClean_pos : (s : Bytes) → EndsClean s → 0 < length s
EndsClean_pos [] h = absurd h
EndsClean_pos (c ∷ s) h = omega arith

module _ (read_time : Bytes → Option Time) where
  timestamp-parse :
      (s rest : Bytes) (t : Time)
      → Lacks b']' s
      → 0 < length s
      → 0 < length rest
      → read_time s ≡ some t
      → parse_log_timestamp read_time (b'[' ∷ (s ++ b']' ∷ b' ' ∷ rest)) ≡ ok (t, rest)
  unfolding parse_log_timestamp
  timestamp-parse s rest t h p q e =
      let minus : suc (length s) - 1 ≡ length s = omega arith in
      let plus : suc (length s) + 2 ≡ suc (suc (suc (length s))) = omega arith in
      rw
        (
          index_byte-append b']' (b'[' ∷ s) (b' ' ∷ rest) (omega arith, h),
          minus,
          take-append s (b']' ∷ b' ' ∷ rest),
          e,
          plus,
          drop-append_two s b']' b' ' rest,
        )
        (ground (arith, length-append s (b']' ∷ b' ' ∷ rest)))

  tag-parse :
      (room rest : Bytes)
      → Lacks b' ' room
      → parse_log_room_tag (b'@' ∷ (room ++ b' ' ∷ rest)) ≡ ok (room, rest)
  unfolding parse_log_room_tag
  tag-parse room rest h = rw (
    index_byte-append b' ' room rest h,
    take-append room (b' ' ∷ rest),
    drop-append_suc room b' ' rest,
  )

  -- The keyword does not look like a tag.
  no_tag :
      (k : MessageType) (m : Message)
      → LoggableAs k m
      → parse_log_room_tag (log_body k m) ≡ ok ([], log_body k m)
  unfolding parse_log_room_tag log_body codes
  no_tag chat m h = refl
  no_tag join m h = refl
  no_tag leave m h = refl
  no_tag name_change m h = refl
  no_tag announcement m h = refl
  no_tag moderation m h = refl
  no_tag server_event m h = refl
  no_tag (other n) m h = absurd h

  module _ (ts : Time) (sender content extra room : Bytes) where
    -- The tag, or its absence, gives the room back.
    room-parse_user :
        (k : MessageType)
        → is_server_event k ≡ false
        → LoggableAs k (of_type ts sender content extra room k)
        → Lacks b' ' room
        → (let m = of_type ts sender content extra room k in
            parse_log_room_tag (room_tag m ++ log_body k m) ≡ ok (room, log_body k m))
    unfolding room_tag codes
    room-parse_user k user h w = elim (Bytes-cases room []) [
      | inl e ↦
          rw (user, (bytes_eq_iff room []).1 e)
            (no_tag k (of_type ts sender content extra room k) h
              ∙ ap (λ (r : Bytes). ok (r, log_body k (of_type ts sender content extra room k)))
                  (sym e))
      | inr n ↦ rw (user, bytes_eq_ne room [] n) (rw append_assoc (tag-parse room _ w))
    ]

    room-parse :
        (k : MessageType)
        → LoggableAs k (of_type ts sender content extra room k)
        → Lacks b' ' room
        → (let m = of_type ts sender content extra room k in
            parse_log_room_tag (room_tag m ++ log_body k m) ≡ ok (room, log_body k m))
    unfolding room_tag
    room-parse server_event h w =
        let m = of_type ts sender content extra room server_event in
        no_tag server_event m h ∙ ap (λ (r : Bytes). ok (r, log_body server_event m)) (sym h.3)
    room-parse (other n) h w = absurd h
    room-parse k h w = room-parse_user k refl h w

    line-parse :
        (k : MessageType)
        → LoggableAs k (of_type ts sender content extra room k)
        → Lacks b' ' room
        → read_time (format_timestamp ts) ≡ some ts
        → (let m = of_type ts sender content extra room k in
            parse_log_line read_time (format_log_line m) ≡ ok m)
    unfolding parse_log_line format_log_line codes parse_trimmed
    line-parse k h w e =
        let m = of_type ts sender content extra room k in
        let rest = room_tag m ++ log_body k m in
        let clean =
          EndsClean-append (room_tag m) _ (log_body-EndsClean ts sender content extra room k h) in
        let line = format_timestamp ts ++ b']' ∷ b' ' ∷ rest in
        rw
          (
            trim_space_fix b'[' line (omega arith) (
                EndsClean-append (b'[' ∷ format_timestamp ts) _
                  (EndsClean-append (b']' ∷ b' ' ∷ []) rest clean)),
            timestamp-parse (format_timestamp ts) rest ts (timestamp-Lacks ts) (timestamp_pos ts)
                (EndsClean_pos rest clean) e,
            room-parse k h w,
          )
          (body-parse ts sender content extra room k h)

  -- A line that FormatLogLine prints for a loggable message is read back as that message, where
  -- the time reader reads the message's timestamp.
  pub parse-format :
      (m : Message)
      → IsLoggable m
      → read_time (format_timestamp m.timestamp) ≡ some m.timestamp
      → parse_log_line read_time (format_log_line m) ≡ ok m
  parse-format m v e =
      line-parse m.timestamp m.sender m.content m.extra m.room m.type v.fields v.room_word e
