-- ===== src/Client.antt =====
-- client/client.go: a connection's state, its write queue and its setters. The mutex and the
-- goroutines are not modelled: each operation is one step on the record. An instant is a number of
-- nanoseconds, and `sent` is what has been written to the connection.
pub mod Write
pub mod Read
pub mod Lines
pub mod Continuity
use net_cat.Base.{
  Bytes, bytes_eq, ℕ, Bool, true, false, List, [], ◌∷◌, ◌++◌, if◌then◌else◌, ltb, length,
}

-- `wmMessage` and the other write types.
pub data WriteType : Type 0 where
  wm_message wm_prompt wm_echo wm_backspace wm_newline : WriteType

pub record WriteMsg : Type 0 where
  pub text : Bytes
  pub msg_type : WriteType

pub record Client : Type 0 where
  pub username : Bytes
  pub join_time : ℕ
  pub ip : Bytes
  pub room : Bytes
  pub last_activity : ℕ
  pub muted : Bool
  pub admin : Bool
  pub msg_chan : List WriteMsg
  pub done : Bool
  pub last_input : ℕ
  pub disconnect_reason : Bytes
  pub echo_mode : Bool
  pub input_buf : Bytes
  pub prompt : Bytes
  pub skip_lf : Bool
  pub sent : Bytes

abbrev pub msg_chan_size : ℕ
msg_chan_size = 4096

abbrev pub max_interactive_buf : ℕ
max_interactive_buf = 4096

-- `NewClient`, for a connection from the given remote address.
unfoldable pub new_client : Bytes → Client
new_client ip = record {
  username = [];
  join_time = 0;
  ip = ip;
  room = [];
  last_activity = 0;
  muted = false;
  admin = false;
  msg_chan = [];
  done = false;
  last_input = 0;
  disconnect_reason = [];
  echo_mode = false;
  input_buf = [];
  prompt = [];
  skip_lf = false;
  sent = [];
}

-- A closed client and a full channel drop the message.
unfoldable pub enqueue : WriteMsg → Client → Client
enqueue m c =
    if c.done
    then c
    else if ltb (length c.msg_chan) msg_chan_size
    then record c { msg_chan = c.msg_chan ++ m ∷ [] }
    else c

unfoldable pub send : Bytes → Client → Client
unfolding enqueue
send msg = enqueue (record { text = msg; msg_type = wm_message })

unfoldable pub send_prompt : Bytes → Client → Client
unfolding enqueue
send_prompt p = enqueue (record { text = p; msg_type = wm_prompt })

-- `Close`: the `sync.Once` makes a second call do nothing.
unfoldable pub close : Client → Client
close c = record c { done = true }

unfoldable pub is_closed : Client → Bool
is_closed c = c.done

unfoldable pub set_last_input : ℕ → Client → Client
set_last_input t c = record c { last_input = t }

unfoldable pub get_last_input : Client → ℕ
get_last_input c = c.last_input

-- The first reason is kept.
unfoldable pub set_disconnect_reason : Bytes → Client → Client
set_disconnect_reason reason c =
    if bytes_eq c.disconnect_reason [] then record c { disconnect_reason = reason } else c

abbrev pub get_disconnect_reason : Client → Bytes
get_disconnect_reason c = c.disconnect_reason

unfoldable pub force_disconnect_reason : Bytes → Client → Client
force_disconnect_reason reason c = record c { disconnect_reason = reason }

unfoldable pub set_last_activity : ℕ → Client → Client
set_last_activity t c = record c { last_activity = t }

abbrev pub get_last_activity : Client → ℕ
get_last_activity c = c.last_activity

unfoldable pub set_muted : Bool → Client → Client
set_muted v c = record c { muted = v }

abbrev pub is_muted : Client → Bool
is_muted c = c.muted

unfoldable pub set_admin : Bool → Client → Client
set_admin v c = record c { admin = v }

abbrev pub is_admin : Client → Bool
is_admin c = c.admin

unfoldable pub set_echo_mode : Bool → Client → Client
set_echo_mode enabled c = record c { echo_mode = enabled }
