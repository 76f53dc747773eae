-- ===== src/Models/RoundTrip/Loggable.antt =====
-- The messages whose log line can be read back: the fields that the grammar of each keyword
-- separates do not hold the separator, and the line ends in a byte that trimming leaves.
use net_cat.Base.{Bytes, ◌≡◌, ◌⊎◌, []}
use net_cat.Base.TextLaws.{Lacks, LacksPair, EndsClean}
use net_cat.Models.{
  Message, MessageType, chat, join, leave, name_change, announcement, moderation, server_event,
  other,
}

-- An empty text, or one that ends in a printable byte.
abbrev pub EmptyOrClean : Bytes → Type 0
EmptyOrClean s = (s ≡ []) ⊎ EndsClean s

abbrev pub LoggableAs : MessageType → Message → Type 0
LoggableAs chat m = LacksPair b']' b':' m.sender × EmptyOrClean m.content × (m.extra ≡ [])
LoggableAs join m = EndsClean m.sender × (m.content ≡ []) × (m.extra ≡ [])
LoggableAs leave m = Lacks b' ' m.sender × (m.content ≡ []) × EndsClean m.extra
LoggableAs name_change m = Lacks b' ' m.extra × EndsClean m.sender × (m.content ≡ [])
LoggableAs announcement m = LacksPair b']' b':' m.extra × EmptyOrClean m.content × (m.sender ≡ [])
LoggableAs moderation m = Lacks b' ' m.content × Lacks b' ' m.sender × EndsClean m.extra
LoggableAs server_event m = EndsClean m.content × (m.sender ≡ []) × (m.extra ≡ []) × (m.room ≡ [])
LoggableAs (other n) m = ⊥

pub record IsLoggable (m : Message) : Type 0 where
  pub fields : LoggableAs m.type m
  pub room_word : Lacks b' ' m.room
