-- ===== src/Base/Heap.antt =====
-- Pointers: a heap gives the object at each address, and a write replaces it.
use net_cat.Base.Tests.{◌==◌, if◌then◌else◌}
use Prim.Native.Nat.{ℕ}
use mathlib.Core.Path.{◌≡◌}
use mathlib.Core.Logic.{◌≢◌}
use native.Mathlib.Omega.{arith}

module _ {ℓ} {A : Type ℓ} where
  abbrev pub update : (ℕ → A) → ℕ → A → ℕ → A
  update h p a q = if p == q then a else h q

  pub update_self : (h : ℕ → A) (p : ℕ) (a : A) → update h p a p ≡ a
  update_self h p a = ground arith

  pub update_ne : (h : ℕ → A) (p q : ℕ) (a : A) → p ≢ q → update h p a q ≡ h q
  update_ne h p q a n = ground arith
