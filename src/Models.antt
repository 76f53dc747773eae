-- ===== src/Models.antt =====
-- models/message.go: chat events, their display and their log lines.
pub mod Format
pub mod Parse
pub mod RoundTrip
use net_cat.Base.{Bytes, ℕ, Bool, true, false}

-- What the program reads of a `time.Time`: the local calendar date and the time of day.
pub record Time : Type 0 where
  pub year : ℕ
  pub month : ℕ
  pub day : ℕ
  pub hour : ℕ
  pub minute : ℕ
  pub second : ℕ

-- `other` stands for the values of the Go type that have no constant.
pub data MessageType : Type 0 where
  chat join leave name_change announcement moderation server_event : MessageType
  other : ℕ → MessageType

pub record Message : Type 0 where
  pub timestamp : Time
  pub sender : Bytes
  pub content : Bytes
  pub type : MessageType
  pub extra : Bytes
  pub room : Bytes

-- `t == MsgServerEvent`.
abbrev pub is_server_event : MessageType → Bool
is_server_event server_event = true
is_server_event _ = false
