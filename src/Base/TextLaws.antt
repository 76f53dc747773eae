-- ===== src/Base/TextLaws.antt =====
-- Laws of searching, cutting and trimming, on the texts that the log lines are made of.
use net_cat.Base.Lists.{length, All}
use net_cat.Base.Text.{Bytes, index_byte, index_pair, lead_space, trim_left, trim_space}
use Prim.Native.Nat.{ℕ, zero, suc, ◌≤◌}
use mathlib.Core.Path.{◌≡◌, refl}
use mathlib.Core.Logic.{◌≢◌}
use mathlib.Core.Bool.{Bool, true, false}
use mathlib.Core.Option.{none, some}
use mathlib.Core.List.{[], ◌∷◌, ◌++◌, reverse, reverse-cons, reverse-reverse}
use native.Mathlib.Omega.{arith}

abbrev pub Lacks : ℕ → Bytes → Type 0
Lacks b = All (λ c. c ≢ b)

-- No `a` with a `b` behind it.
abbrev pub LacksPair : ℕ → ℕ → Bytes → Type 0
LacksPair a b [] = Unit
LacksPair a b (c ∷ []) = Unit
LacksPair a b (c ∷ d ∷ s) = ((c ≡ a) → d ≢ b) × LacksPair a b (d ∷ s)

pub index_byte-append :
    (b : ℕ) (s t : Bytes) → Lacks b s → index_byte b (s ++ b ∷ t) ≡ some (length s)
unfolding index_byte
index_byte-append b [] t h = ground arith
index_byte-append b (c ∷ s) t h = ground (arith, index_byte-append b s t h.1)

pub index_byte-none : (b : ℕ) (s : Bytes) → Lacks b s → index_byte b s ≡ none
unfolding index_byte
index_byte-none b [] h = refl
index_byte-none b (c ∷ s) h = ground (arith, index_byte-none b s h.1)

pub index_pair-append :
    (a b : ℕ) (s t : Bytes)
    → a ≢ b
    → LacksPair a b s
    → index_pair a b (s ++ a ∷ b ∷ t) ≡ some (length s)
unfolding index_pair
index_pair-append a b [] t n h = ground arith
index_pair-append a b (c ∷ []) t n h = ground arith
index_pair-append a b (c ∷ d ∷ s) t n h = ground (arith, index_pair-append a b (d ∷ s) t n h.1)

-- ASCII that is neither a control code nor a space.
abbrev pub IsPrintable : ℕ → Type 0
IsPrintable c = (0x21 ≤ c) × (c ≤ 0x7E)

-- The last byte is there, and is printable.
abbrev pub EndsClean : Bytes → Type 0
EndsClean [] = ⊥
EndsClean (c ∷ []) = IsPrintable c
EndsClean (c ∷ d ∷ s) = EndsClean (d ∷ s)

pub EndsClean-append : (s t : Bytes) → EndsClean t → EndsClean (s ++ t)
EndsClean-append [] t h = h
EndsClean-append (c ∷ []) [] h = absurd h
EndsClean-append (c ∷ []) (d ∷ t) h = h
EndsClean-append (c ∷ d ∷ s) t h = EndsClean-append (d ∷ s) t h

pub All-EndsClean : (s : Bytes) → s ≢ [] → All IsPrintable s → EndsClean s
All-EndsClean [] n h = absurd (n refl)
All-EndsClean (c ∷ []) n h = h.0
All-EndsClean (c ∷ d ∷ s) n h = All-EndsClean (d ∷ s) (cc) h.1

StartsClean : Bytes → Type 0
StartsClean [] = ⊥
StartsClean (c ∷ s) = IsPrintable c

lead_space_zero : (r : Bool) (s : Bytes) → StartsClean s → lead_space r s ≡ 0
unfolding lead_space StartsClean
lead_space_zero r [] h = absurd h
lead_space_zero r (a ∷ []) h = ground arith
lead_space_zero r (a ∷ b ∷ []) h = ground arith
lead_space_zero r (a ∷ b ∷ c ∷ s) h = ground arith

trim_left_fix : (f : ℕ) (r : Bool) (s : Bytes) → StartsClean s → trim_left f r s ≡ s
unfolding trim_left
trim_left_fix zero r s h = refl
trim_left_fix (suc f) r s h = rw (lead_space_zero r s h) refl

StartsClean-append : (s t : Bytes) → StartsClean s → StartsClean (s ++ t)
unfolding StartsClean
StartsClean-append [] t h = absurd h
StartsClean-append (c ∷ s) t h = h

reverse-StartsClean : (s : Bytes) → EndsClean s → StartsClean (reverse s)
unfolding StartsClean
reverse-StartsClean [] h = h
reverse-StartsClean (c ∷ []) h = h
reverse-StartsClean (c ∷ d ∷ s) h =
    rw (reverse-cons c (d ∷ s))
      (StartsClean-append (reverse (d ∷ s)) (c ∷ []) (reverse-StartsClean (d ∷ s) h))

-- A text that begins and ends with printable bytes has nothing to trim.
pub trim_space_fix :
    (c : ℕ) (s : Bytes) → IsPrintable c → EndsClean (c ∷ s) → trim_space (c ∷ s) ≡ c ∷ s
unfolding trim_space StartsClean
trim_space_fix c s h e =
    rw
      (
        trim_left_fix (length (c ∷ s)) false (c ∷ s) h,
        trim_left_fix (length (c ∷ s)) true (reverse (c ∷ s)) (reverse-StartsClean (c ∷ s) e),
      )
      (reverse-reverse (c ∷ s))
