-- ===== src/Base/Text.antt =====
-- Go strings as lists of bytes, with the functions of package strings that the program calls.
use Prim.Native.Nat.{ℕ, zero, suc}
use Prim.Native.Char.{code}
use Prim.Native.String.{String}
use mathlib.Core.Path.{◌≡◌, refl}
use mathlib.Core.Logic.{◌≢◌, ◌↔◌, ◌⊎◌, inl, inr}
use mathlib.Core.Bool.{Bool, true, false, ◌&&◌, ◌||◌}
use mathlib.Core.Option.{Option, none, some}
use mathlib.Core.List.{List, [], ◌∷◌, reverse}
use native.Mathlib.Omega.{arith}
use net_cat.Base.Tests.{◌==◌, ltb, leb, if◌then◌else◌, Bool-cases}
use net_cat.Base.Lists.{drop, length}

abbrev pub Bytes : Type 0
Bytes = List ℕ

-- The bytes of an ASCII literal.
unfoldable pub codes : String → Bytes
codes String.[] = []
codes (String.◌∷◌ c s) = code c ∷ codes s

-- `==` and `<` of Go strings.
unfoldable pub bytes_eq : Bytes → Bytes → Bool
bytes_eq [] [] = true
bytes_eq [] (b ∷ t) = false
bytes_eq (a ∷ s) [] = false
bytes_eq (a ∷ s) (b ∷ t) = a == b && bytes_eq s t

unfoldable pub bytes_ltb : Bytes → Bytes → Bool
bytes_ltb s [] = false
bytes_ltb [] (b ∷ t) = true
bytes_ltb (a ∷ s) (b ∷ t) = ltb a b || (a == b && bytes_ltb s t)

bytes_eq_sound : (s t : Bytes) → bytes_eq s t ≡ true → s ≡ t
unfolding bytes_eq
bytes_eq_sound [] [] h = refl
bytes_eq_sound [] (b ∷ t) h = cc
bytes_eq_sound (a ∷ s) [] h = cc
bytes_eq_sound (a ∷ s) (b ∷ t) h = ground (arith, bytes_eq_sound s t)

pub bytes_eq_refl : (s : Bytes) → bytes_eq s s ≡ true
unfolding bytes_eq
bytes_eq_refl [] = refl
bytes_eq_refl (a ∷ s) = ground (arith, bytes_eq_refl s)

pub bytes_eq_iff : (s t : Bytes) → (bytes_eq s t ≡ true) ↔ (s ≡ t)
bytes_eq_iff s t = (bytes_eq_sound s t, λ e. rw e (bytes_eq_refl t))

pub bytes_eq_ne : (s t : Bytes) → s ≢ t → bytes_eq s t ≡ false
bytes_eq_ne s t h = ground (arith, bytes_eq_iff s t)

pub Bytes-cases : (s t : Bytes) → (s ≡ t) ⊎ (s ≢ t)
Bytes-cases s t = elim (Bool-cases (bytes_eq s t)) [
  | inl e ↦ inl ((bytes_eq_iff s t).0 e)
  | inr e ↦ inr (λ p. ground (arith, bytes_eq_iff s t))
]

-- `strings.IndexByte`, with `none` for -1.
unfoldable pub index_byte : ℕ → Bytes → Option ℕ
index_byte b [] = none
index_byte b (c ∷ s) =
    if c == b then some 0 else elim (index_byte b s) [ none ↦ none | some i ↦ some (suc i) ]

-- `strings.Index` for a text of two bytes.
unfoldable pub index_pair : ℕ → ℕ → Bytes → Option ℕ
index_pair a b [] = none
index_pair a b (c ∷ []) = none
index_pair a b (c ∷ d ∷ s) =
    if c == a && d == b
    then some 0
    else elim (index_pair a b (d ∷ s)) [ none ↦ none | some i ↦ some (suc i) ]

is_ascii_space : ℕ → Bool
is_ascii_space b = (leb 9 b && leb b 13) || b == 32

-- How many bytes the white space (`unicode.IsSpace`, in UTF-8) at the front takes, 0 if none is
-- there. The middle byte of three is the same when the text is read from its end.
lead_two : ℕ → ℕ → Bool
lead_two a b = a == 0xC2 && (b == 0x85 || b == 0xA0)

lead_three : ℕ → ℕ → ℕ → Bool
lead_three a b c =
    (a == 0xE1 && b == 0x9A && c == 0x80)
    || (a == 0xE2
        && b == 0x80
        && ((leb 0x80 c && leb c 0x8A) || c == 0xA8 || c == 0xA9 || c == 0xAF))
    || (a == 0xE2 && b == 0x81 && c == 0x9F)
    || (a == 0xE3 && b == 0x80 && c == 0x80)

unfoldable pub lead_space : Bool → Bytes → ℕ
unfolding is_ascii_space lead_two lead_three
lead_space reversed [] = 0
lead_space reversed (a ∷ []) = if is_ascii_space a then 1 else 0
lead_space reversed (a ∷ b ∷ []) =
    if is_ascii_space a
    then 1
    else if (if reversed then lead_two b a else lead_two a b)
    then 2
    else 0
lead_space reversed (a ∷ b ∷ c ∷ s) =
    if is_ascii_space a
    then 1
    else if (if reversed then lead_two b a else lead_two a b)
    then 2
    else if (if reversed then lead_three c b a else lead_three a b c)
    then 3
    else 0

-- Each round takes a byte at least, so the length of the text is fuel enough.
unfoldable pub trim_left : ℕ → Bool → Bytes → Bytes
unfolding lead_space
trim_left zero reversed s = s
trim_left (suc f) reversed s =
    let rest = trim_left f reversed (drop (lead_space reversed s) s) in
    if lead_space reversed s == 0 then s else rest

-- `strings.TrimSpace`.
unfoldable pub trim_space : Bytes → Bytes
unfolding trim_left
trim_space s =
    let t = trim_left (length s) false s in reverse (trim_left (length t) true (reverse t))
