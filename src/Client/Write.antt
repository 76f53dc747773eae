-- ===== src/Client/Write.antt =====
-- `writeLoop` and `writeWithContinuity`.
use net_cat.Base.{Bytes, Bool, true, false, List, [], ◌∷◌, ◌++◌, if◌then◌else◌, ltb, length, ◌||◌}
use net_cat.Client.{
  Client, WriteMsg, WriteType, wm_message, wm_prompt, wm_echo, wm_backspace, wm_newline,
  max_interactive_buf,
}

-- `len(s) > 0`.
abbrev pub nonempty : Bytes → Bool
nonempty [] = false
nonempty (b ∷ s) = true

-- All but the last byte: `s[:len(s)-1]`.
unfoldable pub drop_last : Bytes → Bytes
drop_last [] = []
drop_last (b ∷ []) = []
drop_last (b ∷ c ∷ s) = b ∷ drop_last (c ∷ s)

-- "\r\033[K": to the start of the line, and clear it.
abbrev pub clear_line : Bytes
clear_line = 13 ∷ 27 ∷ b'[' ∷ b'K' ∷ []

unfoldable pub write_with_continuity : Bytes → Client → Bytes
write_with_continuity msg c =
    (if nonempty c.prompt || nonempty c.input_buf then clear_line else [])
    ++ (msg
        ++ ((if nonempty c.prompt then c.prompt else [])
            ++ (if nonempty c.input_buf then c.input_buf else [])))

echo_byte : Bytes → Client → Client
echo_byte [] c = c
echo_byte (b ∷ s) c =
    if ltb (length c.input_buf) max_interactive_buf
    then record c { input_buf = c.input_buf ++ b ∷ [] }
    else c

write_echo : WriteType → Bytes → Client → Client
unfolding echo_byte
write_echo wm_message text c = record c { sent = c.sent ++ write_with_continuity text c }
write_echo wm_prompt text c = record c { prompt = text; input_buf = []; sent = c.sent ++ text }
write_echo wm_echo text c = echo_byte text c
write_echo wm_backspace text c = record c { input_buf = drop_last c.input_buf }
write_echo wm_newline text c = record c { input_buf = []; prompt = [] }

-- One round of the loop on a message, where the connection takes what is written.
unfoldable pub write_step : WriteMsg → Client → Client
unfolding write_echo
write_step m c =
    if c.echo_mode then write_echo m.msg_type m.text c else record c { sent = c.sent ++ m.text }

write_all : List WriteMsg → Client → Client
write_all [] c = c
write_all (m ∷ ms) c = write_all ms (write_step m c)

-- The loop until the channel is empty.
unfoldable pub write_loop : Client → Client
unfolding write_all write_step
write_loop c = write_all c.msg_chan (record c { msg_chan = [] })
