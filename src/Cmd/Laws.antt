-- ===== src/Cmd/Laws.antt =====
-- What the command parser promises, and the shape of the registry.
use net_cat.Base.{
  Bytes, codes, bytes_eq, ℕ, ◌≡◌, ◌≢◌, refl, Bool, true, false, List, [], ◌∷◌, ◌++◌, none, some,
  arith, take-append, drop-append_suc,
}
use net_cat.Base.Assoc.{lookup}
use net_cat.Base.TextLaws.{
  Lacks, index_byte-append, index_byte-none, EndsClean, IsPrintable, trim_space_fix,
}
use net_cat.Cmd.{commands, command_order, parse_command}

-- A slash, a name with no space, a space and arguments that begin and end in printable bytes are
-- taken apart into that name and those arguments.
pub parse_command_words :
    (name : Bytes) (c : ℕ) (args : Bytes)
    → name ≢ []
    → Lacks b' ' name
    → IsPrintable c
    → EndsClean (c ∷ args)
    → parse_command (b'/' ∷ (name ++ b' ' ∷ c ∷ args)) ≡ some (name, c ∷ args)
unfolding parse_command
parse_command_words [] c args n h p e = absurd (n refl)
parse_command_words (b ∷ name) c args n h p e = rw (
  index_byte-append b' ' (b ∷ name) (c ∷ args) h,
  take-append (b ∷ name) (b' ' ∷ c ∷ args),
  drop-append_suc name b' ' (c ∷ args),
  trim_space_fix c args p e,
)

pub parse_command_bare :
    (name : Bytes) → Lacks b' ' name → parse_command (b'/' ∷ name) ≡ some (name, [])
unfolding parse_command
parse_command_bare [] h = refl
parse_command_bare (b ∷ name) h = rw (index_byte-none b' ' (b ∷ name) h)

-- Input is a command exactly when it begins with a slash.
pub parse_command-none : (b : ℕ) (s : Bytes) → b ≢ b'/' → parse_command (b ∷ s) ≡ none
unfolding parse_command
parse_command-none b s h = ground arith

abbrev pub registered : List Bytes → Bool
registered [] = true
registered (n ∷ ns) = elim (lookup n commands) [ none ↦ false | some _ ↦ registered ns ]

-- `/help` looks every command up: none is missing from the registry.
pub command_order-registered : registered command_order ≡ true
unfolding command_order commands lookup bytes_eq codes
command_order-registered = refl
