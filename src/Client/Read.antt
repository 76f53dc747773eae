-- ===== src/Client/Read.antt =====
-- `ReadLine` and `ReadLineInteractive`.
use net_cat.Base.{
  Bytes, ℕ, true, false, [], ◌∷◌, ◌++◌, if◌then◌else◌, ◌==◌, leb, ltb, length, ◌&&◌, ◌||◌, Option,
  none, some,
}
use net_cat.Client.{Client, wm_echo, wm_backspace, wm_newline, enqueue}
use net_cat.Base.Scanner.{drop_cr, max_token}
use net_cat.Client.Write.{drop_last, nonempty}

-- What a byte leads to: the loop goes on with the line so far, or the line is complete.
pub data Progress : Type 0 where
  going finished : Bytes → Progress

-- One byte after the check for the second half of "\r\n".
unfoldable pub handle_byte : ℕ → Client → Bytes → Client × Progress
handle_byte b c line =
    if b == 13
    then (
      enqueue (record { text = []; msg_type = wm_newline }) (record c { skip_lf = true }),
      finished line,
    )
    else if b == 10
    then (enqueue (record { text = []; msg_type = wm_newline }) c, finished line)
    else if b == 0x7F || b == 8
    then if nonempty line
      then (enqueue (record { text = []; msg_type = wm_backspace }) c, going (drop_last line))
      else (c, going line)
    else if leb 0x20 b && leb b 0x7E
    then (enqueue (record { text = b ∷ []; msg_type = wm_echo }) c, going (line ++ b ∷ []))
    else (c, going line)

-- One round of the loop.
unfoldable pub read_byte : ℕ → Client → Bytes → Client × Progress
unfolding handle_byte
read_byte b c line =
    if c.skip_lf && b == 10
    then (record c { skip_lf = false }, going line)
    else handle_byte b (record c { skip_lf = false }) line

-- The line that the input completes and the input behind it, or `none` where the connection's
-- read fails first.
unfoldable pub read_line_from : Bytes → Client → Bytes → Client × Option (Bytes × Bytes)
read_line_from [] c line = (c, none)
read_line_from (b ∷ bs) c line =
    let (c', progress) = read_byte b c line in
    elim progress [
      | going line' ↦ read_line_from bs c' line'
      | finished line' ↦ (c', some (line', bs))
    ]

unfoldable pub read_line_interactive : Bytes → Client → Client × Option (Bytes × Bytes)
unfolding read_line_from
read_line_interactive input c = read_line_from input c []

-- What `ReadLine` returns: a line, with the input that is left, or one of the two errors.
pub data ReadResult : Type 0 where
  line_read : Bytes → Bytes → ReadResult
  input_ended line_too_long : ReadResult

-- The scan of the input that arrives before the connection's read fails, `line` being what the
-- scanner has of the current line.
unfoldable pub scan_line : Bytes → Bytes → ReadResult
scan_line line [] =
    if length line == 0
    then input_ended
    else if ltb (length line) max_token
    then line_read (drop_cr line) []
    else line_too_long
scan_line line (b ∷ text) = elim (b == 10) [
  | true ↦ if ltb (length line) max_token then line_read (drop_cr line) text else line_too_long
  | false ↦ scan_line (line ++ b ∷ []) text
]

unfoldable pub read_line : Bytes → ReadResult
unfolding scan_line
read_line input = scan_line [] input
