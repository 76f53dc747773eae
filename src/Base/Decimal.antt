-- ===== src/Base/Decimal.antt =====
-- The verbs `%d` and `%0Nd` of package fmt, on numbers that are not negative.
use net_cat.Base.Tests.{ltb, if◌then◌else◌, Bool-cases}
use net_cat.Base.Lists.{length, All, All-append}
use net_cat.Base.Text.{Bytes}
use Prim.Native.Nat.{ℕ, zero, suc, ◌+◌, ◌-◌, ◌*◌, ◌/◌, ◌%◌, ◌≤◌, ◌<◌}
use mathlib.Core.Path.{◌≡◌, ap, ◌∙◌}
use mathlib.Core.Logic.{inl, inr}
use mathlib.Core.List.{[], ◌∷◌, ◌++◌}
use native.Mathlib.Omega.{arith}

-- The digits of `n` in front of `out`. Each round divides by ten.
digits : ℕ → ℕ → Bytes → Bytes
digits zero n out = out
digits (suc f) n out =
    let rest = digits f (n / 10) ((b'0' + n % 10) ∷ out) in
    if ltb n 10 then (b'0' + n) ∷ out else rest

unfoldable pub decimal : ℕ → Bytes
unfolding digits
decimal n = digits (suc n) n []

zeros : ℕ → Bytes
zeros zero = []
zeros (suc n) = b'0' ∷ zeros n

-- `%0Nd`.
unfoldable pub padded : ℕ → ℕ → Bytes
unfolding zeros decimal
padded width n = zeros (width - length (decimal n)) ++ decimal n

abbrev pub IsDigit : ℕ → Type 0
IsDigit c = (b'0' ≤ c) × (c ≤ b'9')

digits-All : (f n : ℕ) (out : Bytes) → All IsDigit out → All IsDigit (digits f n out)
unfolding digits
digits-All zero n out h = h
digits-All (suc f) n out h = ground (arith, digits-All f (n / 10) ((b'0' + n % 10) ∷ out))

zeros-All : (n : ℕ) → All IsDigit (zeros n)
unfolding zeros
zeros-All zero = tt
zeros-All (suc n) = (omega arith, zeros-All n)

pub decimal-All : (n : ℕ) → All IsDigit (decimal n)
unfolding decimal
decimal-All n = digits-All (suc n) n [] tt

pub padded-All : (w n : ℕ) → All IsDigit (padded w n)
unfolding padded
padded-All w n =
    All-append IsDigit (zeros (w - length (decimal n))) (decimal n) (zeros-All _) (decimal-All n)

-- The number that digits spell behind `n`.
abbrev pub value : ℕ → Bytes → ℕ
value n [] = n
value n (c ∷ s) = value (n * 10 + (c - b'0')) s

value-digits : (f n : ℕ) (out : Bytes) → n < f → value 0 (digits f n out) ≡ value n out
unfolding digits
value-digits zero n out h = absurd (omega arith)
value-digits (suc f) n out h = elim (Bool-cases (ltb n 10)) [
  | inl e ↦ rw e (ap (λ (m : ℕ). value m out) (omega arith))
  | inr e ↦ rw e (
      value-digits f (n / 10) ((b'0' + n % 10) ∷ out) (ground arith)
      ∙ ap (λ (m : ℕ). value m out) (omega arith))
]

-- The fuel is enough: the printed digits spell the number.
pub value-decimal : (n : ℕ) → value 0 (decimal n) ≡ n
unfolding decimal
value-decimal n = value-digits (suc n) n [] (omega arith)
