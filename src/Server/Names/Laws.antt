-- ===== src/Server/Names/Laws.antt =====
-- What `validateName` and `validateRoomName` accept.
use net_cat.Base.{
  Bytes, length, ℕ, ◌≤◌, ◌≡◌, ◌↔◌, true, false, not, ◌==◌, [], ◌∷◌, none, All, arith,
}
use net_cat.Server.Names.{any_byte, is_blank, is_unprintable, validate_name, validate_room_name}

-- From `!` to `~`: no space, no control byte, ASCII only.
abbrev pub IsVisible : ℕ → Type 0
IsVisible b = (0x21 ≤ b) × (b ≤ 0x7E)

-- One to 32 such bytes.
abbrev pub IsName : Bytes → Type 0
IsName name = (1 ≤ length name) × (length name ≤ 32) × All IsVisible name

printable-IsVisible : (s : Bytes) → any_byte is_unprintable s ≡ false → All IsVisible s
unfolding any_byte
printable-IsVisible [] h = tt
printable-IsVisible (b ∷ s) h = ground (arith, printable-IsVisible s)

visible_printable : (s : Bytes) → All IsVisible s → any_byte is_unprintable s ≡ false
unfolding any_byte
visible_printable [] h = ground arith
visible_printable (b ∷ s) h = ground (arith, visible_printable s h.1)

visible_spaceless : (s : Bytes) → All IsVisible s → any_byte (λ b. b == b' ') s ≡ false
unfolding any_byte
visible_spaceless [] h = ground arith
visible_spaceless (b ∷ s) h = ground (arith, visible_spaceless s h.1)

visible_nonblank :
    (b : ℕ) (s : Bytes) → IsVisible b → any_byte (λ d. not (is_blank d)) (b ∷ s) ≡ true
unfolding any_byte
visible_nonblank b s h = ground arith

-- A name is valid exactly when it is 1 to 32 bytes from `!` to `~`: the five checks of
-- `validateName` refuse nothing else.
pub validate_name_iff : (name : Bytes) → (validate_name name ≡ none) ↔ IsName name
unfolding validate_name
validate_name_iff [] = (λ e. ground arith, λ h. ground arith)
validate_name_iff (b ∷ s) = (
  λ e. ground (arith, printable-IsVisible (b ∷ s)),
  λ h. ground (
    arith,
    visible_printable (b ∷ s) h.2,
    visible_spaceless (b ∷ s) h.2,
    visible_nonblank b s h.2.0,
  ),
)

-- The rules for rooms are those for names, though three checks are written in place of five.
pub validate_room_name_iff : (name : Bytes) → (validate_room_name name ≡ none) ↔ IsName name
unfolding validate_room_name
validate_room_name_iff [] = (λ e. ground arith, λ h. ground arith)
validate_room_name_iff (b ∷ s) = (
  λ e. ground (arith, printable-IsVisible (b ∷ s)),
  λ h. ground (arith, visible_printable (b ∷ s) h.2),
)
