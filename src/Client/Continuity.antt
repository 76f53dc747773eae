-- ===== src/Client/Continuity.antt =====
-- Interactive input of client/client.go: the reader, and the writer's copy of the partial line.
use net_cat.Base.{
  Bytes, ℕ, ◌≤◌, ◌<◌, ◌≡◌, refl, ap, inl, inr, Bool, true, false, [], ◌∷◌, ◌++◌, ◌==◌, ◌&&◌, Option,
  some, arith, length, All, Bool-cases, append_assoc, append-nil, ◌∙◌,
}
use net_cat.Client.{Client, WriteMsg, enqueue, wm_newline, wm_backspace, wm_echo}
use net_cat.Client.Write.{drop_last, nonempty, write_loop}
use net_cat.Client.Read.{
  Progress, going, finished, handle_byte, read_byte, read_line_from, read_line_interactive,
}

-- What the reader keeps of the input: ASCII from the space to the tilde.
abbrev pub IsTyped : ℕ → Type 0
IsTyped b = (0x20 ≤ b) × (b ≤ 0x7E)

-- Between two bytes: the channel is drained, and the writer's copy of the partial line is the
-- reader's.
pub record IsTracking (line : Bytes) (c : Client) : Type 0 where
  pub echoing : c.echo_mode ≡ true
  pub open_conn : c.done ≡ false
  pub drained : c.msg_chan ≡ []
  pub copied : c.input_buf ≡ line

-- The line that the reader has after a byte, which is empty once a line is complete.
abbrev pub pending : Progress → Bytes
pending (going line) = line
pending (finished line) = []

drop_last_nil : (line : Bytes) → nonempty line ≡ false → drop_last line ≡ line
unfolding drop_last
drop_last_nil [] h = refl
drop_last_nil (b ∷ s) h = cc

-- What a byte can do, for a proof about each of its outcomes.
handle_byte_cases {ℓ} :
    (P : Client × Progress → Type ℓ) (b : ℕ) (c : Client) (line : Bytes)
    → P (
      enqueue (record { text = []; msg_type = wm_newline }) (record c { skip_lf = true }),
      finished line,
    )
    → P (enqueue (record { text = []; msg_type = wm_newline }) c, finished line)
    → P (enqueue (record { text = []; msg_type = wm_backspace }) c, going (drop_last line))
    → P (c, going line)
    → (IsTyped b
        → P (enqueue (record { text = b ∷ []; msg_type = wm_echo }) c, going (line ++ b ∷ [])))
    → P (handle_byte b c line)
unfolding handle_byte
handle_byte_cases P b c line carriage feed erase ignored typed = ground arith

module _ (line : Bytes) (c : Client) (v : IsTracking line c) where
  idle-IsTracking : IsTracking line (write_loop c)
  unfolding write_loop
  idle-IsTracking =
      rw v.drained
        (record { echoing = v.echoing; open_conn = v.open_conn; drained = refl; copied = v.copied })

  newline-IsTracking :
      IsTracking [] (write_loop (enqueue (record { text = []; msg_type = wm_newline }) c))
  unfolding write_loop enqueue
  newline-IsTracking = ground arith

  backspace-IsTracking :
      IsTracking
        (drop_last line)
        (write_loop (enqueue (record { text = []; msg_type = wm_backspace }) c))
  unfolding write_loop enqueue
  backspace-IsTracking = ground arith

  echo-IsTracking :
      (b : ℕ)
      → length line < 4096
      → IsTracking
          (line ++ b ∷ [])
          (write_loop (enqueue (record { text = b ∷ []; msg_type = wm_echo }) c))
  unfolding write_loop enqueue
  echo-IsTracking b h = ground arith

-- The flag of the reader is no part of the writer's state.
skip_lf-IsTracking :
    {line : Bytes} {c : Client}
    → IsTracking line c
    → (x : Bool) → IsTracking line (record c { skip_lf = x })
skip_lf-IsTracking v x = record {
  echoing = v.echoing;
  open_conn = v.open_conn;
  drained = v.drained;
  copied = v.copied;
}

handle_byte-IsTracking :
    (b : ℕ) (line : Bytes) (c : Client)
    → IsTracking line c
    → length line < 4096
    → IsTracking (pending (handle_byte b c line).1) (write_loop (handle_byte b c line).0)
handle_byte-IsTracking b line c v h =
    handle_byte_cases (λ r. IsTracking (pending r.1) (write_loop r.0)) b c line
      (newline-IsTracking line _ (skip_lf-IsTracking v true)) (newline-IsTracking line c v)
      (backspace-IsTracking line c v) (idle-IsTracking line c v) (λ _. echo-IsTracking line c v b h)

-- One byte read, and its message written, keep the two copies of the line equal, as long as the
-- line is below the 4096 bytes that the writer tracks.
pub read_byte-IsTracking :
    (b : ℕ) (line : Bytes) (c : Client)
    → IsTracking line c
    → length line < 4096
    → IsTracking (pending (read_byte b c line).1) (write_loop (read_byte b c line).0)
unfolding read_byte
read_byte-IsTracking b line c v h = elim (Bool-cases (c.skip_lf && b == 10)) [
  | inl e ↦ rw e (idle-IsTracking line _ (skip_lf-IsTracking v false))
  | inr e ↦ rw e (handle_byte-IsTracking b line _ (skip_lf-IsTracking v false) h)
]

typed_step :
    (b : ℕ) (c : Client) (line : Bytes)
    → IsTyped b
    → read_byte b c line ≡ (
      enqueue (record { text = b ∷ []; msg_type = wm_echo }) (record c { skip_lf = false }),
      going (line ++ b ∷ []),
    )
unfolding read_byte handle_byte
typed_step b c line h = ground arith

enqueue-skip_lf : (m : WriteMsg) (c : Client) → (enqueue m c).skip_lf ≡ c.skip_lf
unfolding enqueue
enqueue-skip_lf m c = ground arith

going_step :
    (b : ℕ) (bs : Bytes) (c : Client) (line : Bytes) (c' : Client) (line' : Bytes)
    → read_byte b c line ≡ (c', going line')
    → read_line_from (b ∷ bs) c line ≡ read_line_from bs c' line'
unfolding read_line_from
going_step b bs c line c' line' h =
    rw (h, read_line_from) (ap (λ (r : Client × Progress). read_line_from bs r.0 line') h)

finished_step :
    (b : ℕ) (bs : Bytes) (c : Client) (line : Bytes) (c' : Client) (line' : Bytes)
    → read_byte b c line ≡ (c', finished line')
    → read_line_from (b ∷ bs) c line ≡ (c', some (line', bs))
unfolding read_line_from
finished_step b bs c line c' line' h =
    rw (h, read_line_from)
      (ap {B = Client × Option (Bytes × Bytes)} (λ (r : Client × Progress). (r.0, some (line', bs)))
        h)

-- Typed bytes are collected.
typed_line :
    (s rest line : Bytes) (c : Client)
    → All IsTyped s
    → c.skip_lf ≡ false
    → (d : Client) × (read_line_from (s ++ rest) c line ≡ read_line_from rest d (line ++ s))
      × (d.skip_lf ≡ false)
typed_line [] rest line c h e = (c, rw append-nil, e)
typed_line (b ∷ s) rest line c h e =
    let next =
      enqueue (record { text = b ∷ []; msg_type = wm_echo }) (record c { skip_lf = false }) in
    let (d, run, flag) =
      typed_line s rest (line ++ b ∷ []) next h.1
        (enqueue-skip_lf _ (record c { skip_lf = false })) in
    (
      d,
      going_step b (s ++ rest) c line _ _ (typed_step b c line h.0)
          ∙ run
          ∙ ap (read_line_from rest d) (append_assoc line (b ∷ []) s),
      flag,
    )

carriage :
    (d : Client) (line : Bytes)
    → d.skip_lf ≡ false
    → read_byte 13 d line ≡ (
      enqueue (record { text = []; msg_type = wm_newline }) (record d { skip_lf = true }),
      finished line,
    )
unfolding read_byte handle_byte
carriage d line h = rw h

feed :
    (d : Client) → d.skip_lf ≡ true → read_byte 10 d [] ≡ (record d { skip_lf = false }, going [])
unfolding read_byte
feed d h = rw h

-- Typed bytes up to a carriage return are the line, and the line feed of "\r\n" that follows it
-- is not part of the next line: the rest is read as if it were not there.
pub read_line_crlf :
    (s rest : Bytes) (c : Client)
    → All IsTyped s
    → c.skip_lf ≡ false
    → (d : Client) × (read_line_interactive (s ++ 13 ∷ 10 ∷ rest) c ≡ (d, some (s, 10 ∷ rest)))
      × (read_line_interactive (10 ∷ rest) d
          ≡ read_line_interactive rest (record d { skip_lf = false }))
unfolding read_line_interactive
read_line_crlf s rest c h e =
    let (d, run, flag) = typed_line s (13 ∷ 10 ∷ rest) [] c h e in
    let after =
      enqueue (record { text = []; msg_type = wm_newline }) (record d { skip_lf = true }) in
    (
      after,
      run ∙ finished_step 13 (10 ∷ rest) d s after s (carriage d s flag),
      going_step 10 rest after [] _ []
          (feed after (enqueue-skip_lf _ (record d { skip_lf = true }))),
    )
