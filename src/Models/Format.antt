-- ===== src/Models/Format.antt =====
-- The Format functions of models/message.go, `Display` and `FormatLogLine`.
use net_cat.Base.{Bytes, codes, bytes_eq, ◌||◌, [], ◌∷◌, ◌++◌, if◌then◌else◌}
use net_cat.Base.Decimal.{padded}
use net_cat.Models.{
  Time, Message, MessageType, chat, join, leave, name_change, announcement, moderation,
  server_event, other, is_server_event,
}

unfoldable pub format_timestamp : Time → Bytes
format_timestamp t =
    padded 4 t.year
    ++ (b'-'
        ∷ (padded 2 t.month
            ++ (b'-'
                ∷ (padded 2 t.day
                    ++ (b' '
                        ∷ (padded 2 t.hour
                            ++ (b':' ∷ (padded 2 t.minute ++ (b':' ∷ padded 2 t.second)))))))))

unfoldable pub format_chat : Time → Bytes → Bytes → Bytes
format_chat t username content =
    codes "[" ++ format_timestamp t ++ codes "][" ++ username ++ codes "]:" ++ content

unfoldable pub format_prompt : Time → Bytes → Bytes
format_prompt t username = codes "[" ++ format_timestamp t ++ codes "][" ++ username ++ codes "]:"

unfoldable pub format_join : Bytes → Bytes
format_join username = username ++ codes " has joined our chat..."

unfoldable pub format_leave : Bytes → Bytes
format_leave username = username ++ codes " has left our chat..."

unfoldable pub format_name_change : Bytes → Bytes → Bytes
format_name_change old_name new_name = old_name ++ codes " changed their name to " ++ new_name

unfoldable pub format_announcement : Bytes → Bytes
format_announcement message = codes "[ANNOUNCEMENT]: " ++ message

unfoldable pub format_moderation : Bytes → Bytes → Bytes → Bytes
format_moderation target action admin = target ++ codes " was " ++ action ++ codes " by " ++ admin

unfoldable pub format_whisper_receive : Time → Bytes → Bytes → Bytes
format_whisper_receive t sender message =
    codes "[" ++ format_timestamp t ++ codes "][PM from " ++ sender ++ codes "]: " ++ message

unfoldable pub format_whisper_send : Time → Bytes → Bytes → Bytes
format_whisper_send t recipient message =
    codes "[" ++ format_timestamp t ++ codes "][PM to " ++ recipient ++ codes "]: " ++ message

display_as : MessageType → Message → Bytes
display_as chat m = format_chat m.timestamp m.sender m.content
display_as join m = format_join m.sender
display_as leave m = format_leave m.sender
display_as name_change m = format_name_change m.extra m.sender
display_as announcement m = format_announcement m.content
display_as moderation m = format_moderation m.sender m.content m.extra
display_as server_event m = m.content
display_as (other n) m = m.content

-- `Display`.
unfoldable pub display : Message → Bytes
unfolding display_as
display m = display_as m.type m

-- The room tag, which a server event and a message with no room do not have.
unfoldable pub room_tag : Message → Bytes
room_tag m =
    if is_server_event m.type || bytes_eq m.room [] then [] else codes "@" ++ m.room ++ codes " "

unfoldable pub leave_reason : Message → Bytes
leave_reason m = if bytes_eq m.extra [] then codes "voluntary" else m.extra

-- What stands behind the timestamp and the tag.
unfoldable pub log_body : MessageType → Message → Bytes
log_body chat m = codes "CHAT [" ++ (m.sender ++ (codes "]:" ++ m.content))
log_body join m = codes "JOIN " ++ m.sender
log_body leave m = codes "LEAVE " ++ (m.sender ++ (codes " " ++ leave_reason m))
log_body name_change m = codes "NAMECHANGE " ++ (m.extra ++ (codes " " ++ m.sender))
log_body announcement m = codes "ANNOUNCE [" ++ (m.extra ++ (codes "]:" ++ m.content))
log_body moderation m =
    codes "MOD " ++ (m.content ++ (codes " " ++ (m.sender ++ (codes " " ++ m.extra))))
log_body server_event m = codes "SERVER " ++ m.content
log_body (other n) m = codes "UNKNOWN " ++ m.content

-- `FormatLogLine`.
unfoldable pub format_log_line : Message → Bytes
format_log_line m =
    codes "[" ++ (format_timestamp m.timestamp ++ (codes "] " ++ (room_tag m ++ log_body m.type m)))
