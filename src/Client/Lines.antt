-- ===== src/Client/Lines.antt =====
-- What `ReadLineInteractive` of client/client.go returns, and when.
use net_cat.Base.{
  Bytes, ℕ, ◌==◌, ◌&&◌, ◌≡◌, ◌≢◌, refl, ap, false, [], ◌∷◌, ◌++◌, Option, none, some, All, arith,
  Bool-cases, inl, inr,
}
use net_cat.Base.TextLaws.{Lacks}
use net_cat.Client.{Client}
use net_cat.Client.Write.{drop_last}
use net_cat.Client.Continuity.{IsTyped}
use net_cat.Client.Read.{
  Progress, going, finished, handle_byte, read_byte, read_line_from, read_line_interactive,
}

drop_last-All : (s : Bytes) → All IsTyped s → All IsTyped (drop_last s)
unfolding drop_last
drop_last-All [] h = tt
drop_last-All (b ∷ []) h = tt
drop_last-All (b ∷ c ∷ s) h = (h.0, drop_last-All (c ∷ s) h.1)

append-All : (s : Bytes) (b : ℕ) → All IsTyped s → IsTyped b → All IsTyped (s ++ b ∷ [])
append-All [] b h p = (p, tt)
append-All (c ∷ s) b h p = (h.0, append-All s b h.1 p)

-- After one byte the line is printable, and a carriage return ends it.
abbrev Reads : ℕ → Progress → Type 0
Reads b (going line) = All IsTyped line × (b ≢ 13)
Reads b (finished line) = All IsTyped line

handle_byte-Reads :
    (b : ℕ) (c : Client) (line : Bytes) → All IsTyped line → Reads b (handle_byte b c line).1
unfolding handle_byte
handle_byte-Reads b c line h = ground (arith, drop_last-All line h, append-All line b h)

read_byte-Reads :
    (b : ℕ) (c : Client) (line : Bytes) → All IsTyped line → Reads b (read_byte b c line).1
unfolding read_byte
read_byte-Reads b c line h = elim (Bool-cases (c.skip_lf && b == 10)) [
  | inl e ↦ rw (e, read_byte) (h, λ k. ground arith)
  | inr e ↦ rw (e, read_byte) (handle_byte-Reads b (record c { skip_lf = false }) line h)
]

-- A read that does not end has seen no carriage return; one that ends gives a printable line, and
-- leaves the input behind at least one byte.
abbrev pub IsRead : Bytes → Option (Bytes × Bytes) → Type 0
IsRead input none = Lacks 13 input
IsRead input (some (line, rest)) =
    All IsTyped line × (b : ℕ) × (front : Bytes) × (input ≡ b ∷ front ++ rest)

further :
    (b : ℕ) (bs : Bytes) → b ≢ 13 → (o : Option (Bytes × Bytes)) → IsRead bs o → IsRead (b ∷ bs) o
further b bs ne none h = (ne, h)
further b bs ne (some (line, rest)) (typed, d, front, e) = (typed, b, d ∷ front, ap (◌∷◌ b) e)

read_line_from-IsRead :
    (input : Bytes) (c : Client) (line : Bytes)
    → All IsTyped line
    → IsRead input (read_line_from input c line).1
unfolding read_line_from
read_line_from-IsRead [] c line h = tt
read_line_from-IsRead (b ∷ bs) c line h =
    next (λ d line' typed. read_line_from-IsRead bs d line' typed) (read_byte b c line)
      (read_byte-Reads b c line h)
  where
    next :
        ((d : Client) (line' : Bytes) → All IsTyped line' → IsRead bs (read_line_from bs d line').1)
        → (r : Client × Progress) → Reads b r.1
        → IsRead
            (b ∷ bs)
            (elim r.1 as (λ x. Client × Option (Bytes × Bytes)) [
              | going line' ↦ read_line_from bs r.0 line'
              | finished line' ↦ (r.0, some (line', bs))
            ]).1
    next rec (d, going line') (typed, ne) = further b bs ne _ (rec d line' typed)
    next rec (d, finished line') typed = (typed, b, [], refl)

-- Whatever arrives, the read of a line ends at the latest at the first carriage return; it then has
-- taken at least one byte, and the line consists of bytes from the space to the tilde alone, so
-- that no line that a client sends in a session holds a line feed.
pub read_line_interactive-IsRead :
    (input : Bytes) (c : Client) → IsRead input (read_line_interactive input c).1
unfolding read_line_interactive
read_line_interactive-IsRead input c = read_line_from-IsRead input c [] tt
