-- ===== src/Server/History/Scan.antt =====
-- The lines of a log file, in `RecoverHistory` of server/history.go.
use net_cat.Base.{
  Bytes, ℕ, ◌<◌, ◌≡◌, ◌≢◌, refl, sym, ◌∙◌, ap, false, List, [], ◌∷◌, ◌++◌, map, append_assoc,
  append-nil, Option, some, ◌==◌, ==_iff, length, All, arith,
}
use net_cat.Base.TextLaws.{Lacks}
use net_cat.Base.Scanner.{drop_cr, max_token, scan_lines, joined}
use net_cat.Models.{Time, Message}
use net_cat.Models.Format.{format_log_line}
use net_cat.Server.{Server}
use net_cat.Server.Rooms.{get_room_history}
use net_cat.Server.History.{recover_file, recover_lines}
use net_cat.Server.History.Recovery.{IsReadable, recovered_in, recover_lines-history}

-- A line without line feeds and carriage returns that fits into the scanner's buffer.
abbrev pub IsLine : Bytes → Type 0
IsLine l = Lacks 10 l × Lacks 13 l × (length l < max_token)

drop_cr-Lacks : (l : Bytes) → Lacks 13 l → drop_cr l ≡ l
unfolding drop_cr
drop_cr-Lacks [] h = refl
drop_cr-Lacks (b ∷ []) h = ground arith
drop_cr-Lacks (b ∷ c ∷ s) h = ap (◌∷◌ b) (drop_cr-Lacks (c ∷ s) h.1)

no_feed : (b : ℕ) → b ≢ 10 → (b == 10) ≡ false
no_feed b h = ground (arith, ==_iff b 10)

read_on :
    (front l text : Bytes)
    → Lacks 10 l
    → scan_lines front (l ++ text) ≡ scan_lines (front ++ l) text
unfolding scan_lines
read_on front [] text h = ap (λ (f : Bytes). scan_lines f text) (sym (append-nil front))
read_on front (b ∷ l) text h =
    rw (no_feed b h.0, scan_lines)
      (read_on (front ++ b ∷ []) l text h.1
        ∙ ap (λ (f : Bytes). scan_lines f text) (append_assoc front (b ∷ []) l))

line_end :
    (l text : Bytes)
    → length l < max_token
    → scan_lines l (10 ∷ text) ≡ drop_cr l ∷ scan_lines [] text
unfolding scan_lines
line_end l text h = ground arith

scan_lines-joined : (ls : List Bytes) → All IsLine ls → scan_lines [] (joined ls) ≡ ls
scan_lines-joined [] h = unfold scan_lines in refl
scan_lines-joined (l ∷ ls) ((feeds, returns, short), h) =
    read_on [] l (10 ∷ joined ls) feeds
    ∙ line_end l (joined ls) short
    ∙ ap (λ (x : Bytes). x ∷ scan_lines [] (joined ls)) (drop_cr-Lacks l returns)
    ∙ ap (◌∷◌ l) (scan_lines-joined ls h)

-- A file that holds the log lines of loggable messages, each a line that fits into the scanner's
-- buffer, gives every room its messages back, in their order, behind what it had.
pub recover_file-history :
    (read_time : Bytes → Option Time) (room : Bytes) (ms : List Message) (s : Server)
    → All (IsReadable read_time) ms
    → All IsLine (map format_log_line ms)
    → get_room_history room (recover_file read_time (some (joined (map format_log_line ms))) s)
      ≡ get_room_history room s ++ recovered_in room s.default_room ms
unfolding recover_file
recover_file-history read_time room ms s h lines =
    ap {B = List Message}
      (λ (ls : List Bytes). get_room_history room (recover_lines read_time ls s))
      (scan_lines-joined (map format_log_line ms) lines)
    ∙ recover_lines-history read_time room ms s h
