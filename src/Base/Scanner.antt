-- ===== src/Base/Scanner.antt =====
-- Go's `bufio.Scanner` with a buffer of a megabyte, as client/client.go and server/history.go set
-- it up.
use Prim.Native.Nat.{ℕ, ◌*◌}
use mathlib.Core.Bool.{true, false, ◌&&◌}
use mathlib.Core.List.{List, [], ◌∷◌, ◌++◌}
use net_cat.Base.Tests.{◌==◌, ltb, if◌then◌else◌}
use net_cat.Base.Lists.{length}
use net_cat.Base.Text.{Bytes}

-- `bufio.ScanLines`: the line without a carriage return at its end.
unfoldable pub drop_cr : Bytes → Bytes
drop_cr [] = []
drop_cr (b ∷ []) = if b == 13 then [] else b ∷ []
drop_cr (b ∷ c ∷ s) = b ∷ drop_cr (c ∷ s)

abbrev pub max_token : ℕ
max_token = 1024 * 1024

-- The lines that the scanner returns, `line` being what it has read of the current one. A line
-- that does not fit into the buffer ends the scan.
unfoldable pub scan_lines : Bytes → Bytes → List Bytes
unfolding drop_cr
scan_lines line [] =
    if ltb 0 (length line) && ltb (length line) max_token then drop_cr line ∷ [] else []
scan_lines line (b ∷ text) = elim (b == 10) [
  | true ↦ if ltb (length line) max_token then drop_cr line ∷ scan_lines [] text else []
  | false ↦ scan_lines (line ++ b ∷ []) text
]

-- The text of a file with these lines.
abbrev pub joined : List Bytes → Bytes
joined [] = []
joined (l ∷ ls) = l ++ 10 ∷ joined ls
