-- ===== src/Port/Laws.antt =====
-- What `isValidPort` accepts.
use net_cat.Base.{
  Bytes, ℕ, suc, ◌==◌, ◌+◌, ◌-◌, ◌*◌, ◌≤◌, ◌≡◌, ◌↔◌, refl, true, false, [], ◌∷◌, length, All, arith,
}
use net_cat.Base.Decimal.{value, IsDigit, decimal, decimal-All, value-decimal}
use net_cat.Port.{port_from, is_valid_port}

value-le : (n : ℕ) (s : Bytes) → n ≤ value n s
value-le n [] = omega arith
value-le n (c ∷ s) = omega (arith, value-le (n * 10 + (c - b'0')) s)

port_from_sound :
    (n : ℕ) (s : Bytes)
    → n ≤ 65535
    → port_from n s ≡ true
    → All IsDigit s × (1 ≤ value n s) × (value n s ≤ 65535)
unfolding port_from
port_from_sound n [] h e = ground arith
port_from_sound n (b ∷ s) h e = ground (arith, port_from_sound (n * 10 + (b - b'0')) s)

port_from_complete :
    (n : ℕ) (s : Bytes) → All IsDigit s → 1 ≤ value n s → value n s ≤ 65535 → port_from n s ≡ true
unfolding port_from
port_from_complete n [] d l u = ground arith
port_from_complete n (b ∷ s) d l u =
    ground (arith, port_from_complete (n * 10 + (b - b'0')) s, value-le (n * 10 + (b - b'0')) s)

suc_nonzero : (n : ℕ) → (suc n == 0) ≡ false
suc_nonzero n = ground arith

is_valid_port_loop : (b : ℕ) (s : Bytes) → is_valid_port (b ∷ s) ≡ port_from 0 (b ∷ s)
unfolding is_valid_port
is_valid_port_loop b s = rw (suc_nonzero (length s)) refl

-- A port is accepted exactly when it is a text of digits, leading zeros allowed, that spells a
-- number from 1 to 65535. The early exit of the loop, which keeps the number from overflowing,
-- refuses nothing else.
pub is_valid_port_iff :
    (s : Bytes) → (is_valid_port s ≡ true) ↔ (All IsDigit s × (1 ≤ value 0 s) × (value 0 s ≤ 65535))
unfolding is_valid_port
is_valid_port_iff [] = (λ e. cc, λ h. absurd (omega arith))
is_valid_port_iff (b ∷ s) =
    rw (is_valid_port_loop b s)
      (port_from_sound 0 (b ∷ s) (omega arith), λ h. port_from_complete 0 (b ∷ s) h.0 h.1 h.2)

-- The decimal text of every port number is accepted.
pub is_valid_port-decimal : (n : ℕ) → 1 ≤ n → n ≤ 65535 → is_valid_port (decimal n) ≡ true
is_valid_port-decimal n l u =
    (is_valid_port_iff (decimal n)).1
      (decimal-All n, omega (arith, value-decimal n), omega (arith, value-decimal n))
