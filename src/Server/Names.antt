-- ===== src/Server/Names.antt =====
-- `validateName` and `validateRoomName` of server/handler.go, and `extractHost` of
-- server/moderation.go.
pub mod Laws
use net_cat.Base.{
  Bytes, codes, bytes_eq, index_byte, length, take, drop, ltb, leb, ℕ, suc, ◌+◌, ◌-◌, Bool, true,
  false, ◌||◌, ◌&&◌, not, ◌==◌, List, [], ◌∷◌, Option, none, some, if◌then◌else◌, ◌>>=◌,
}

any_byte : (ℕ → Bool) → Bytes → Bool
any_byte test [] = false
any_byte test (b ∷ s) = test b || any_byte test s

-- The loop leaves on the first byte that is no blank.
abbrev is_blank : ℕ → Bool
is_blank b = b == b' ' || b == 9 || b == 13 || b == 10

abbrev is_unprintable : ℕ → Bool
is_unprintable b = ltb b 0x21 || ltb 0x7E b

-- The error's text, or `none` for a valid name.
unfoldable pub validate_name : Bytes → Option Bytes
unfolding any_byte
validate_name name =
    if length name == 0
    then some (codes "Name cannot be empty.")
    else if not (any_byte (λ b. not (is_blank b)) name)
    then some (codes "Name cannot be empty.")
    else if any_byte (λ b. b == b' ') name
    then some (codes "Name cannot contain spaces.")
    else if ltb 32 (length name)
    then some (codes "Name too long (max 32 characters).")
    else if any_byte is_unprintable name
    then some (codes "Name must contain only printable characters.")
    else none

unfoldable pub validate_room_name : Bytes → Option Bytes
unfolding any_byte
validate_room_name name =
    if length name == 0
    then some (codes "Room name cannot be empty.")
    else if ltb 32 (length name)
    then some (codes "Room name too long (max 32 characters).")
    else if any_byte is_unprintable name
    then some (codes "Room name must contain only printable characters.")
    else none

abbrev is_found : Option ℕ → Bool
is_found none = false
is_found (some i) = true

last_index_byte : ℕ → Bytes → Option ℕ
last_index_byte b [] = none
last_index_byte b (c ∷ s) = elim (last_index_byte b s) [
  | some i ↦ some (suc i)
  | none ↦ if c == b then some 0 else none
]

bracketed_host : Bytes → ℕ → Option ℕ → Option Bytes
bracketed_host s colon none = none
bracketed_host s colon (some end) =
    if not (end + 1 == colon)
    then none
    else if is_found (index_byte b'[' (drop 1 s)) || is_found (index_byte b']' (drop (end + 1) s))
    then none
    else some (take (end - 1) (drop 1 s))

plain_host : Bytes → ℕ → Option Bytes
plain_host s colon =
    if is_found (index_byte b':' (take colon s))
    then none
    else if is_found (index_byte b'[' s) || is_found (index_byte b']' s)
    then none
    else some (take colon s)

host_before : Bytes → Option ℕ → Option Bytes
host_before s none = none
host_before [] (some colon) = none
host_before (b ∷ s) (some colon) =
    if b == b'['
    then bracketed_host (b ∷ s) colon (index_byte b']' (b ∷ s))
    else plain_host (b ∷ s) colon

-- The host of `net.SplitHostPort`, `none` where it returns an error.
unfoldable pub split_host : Bytes → Option Bytes
unfolding host_before bracketed_host plain_host last_index_byte
split_host s = host_before s (last_index_byte b':' s)

unfoldable pub extract_host : Bytes → Bytes
unfolding split_host
extract_host addr = elim (split_host addr) [ none ↦ addr | some host ↦ host ]
