-- ===== src/Base/Sort/Laws.antt =====
-- The order and the contents of what the insertion sort returns.
use net_cat.Base.Tests.{Bool-cases}
use net_cat.Base.Lists.{All}
use net_cat.Base.Text.{Bytes, bytes_ltb}
use net_cat.Base.Sort.{shift, sort_onto, insertion_sort}
use mathlib.Core.Path.{◌≡◌, refl, subst, sym}
use mathlib.Core.Logic.{inl, inr}
use mathlib.Core.Bool.{false, true}
use mathlib.Core.List.{
  List, [], ◌∷◌, ◌++◌, reverse, reverse-cons, append-nil, Perm, reverse_perm, perm_middle,
}
use mathlib.Core.List.Perm
use native.Mathlib.Omega.{arith}

-- `t` is not before `s`.
abbrev pub LeBytes : Bytes → Bytes → Type 0
LeBytes s t = bytes_ltb t s ≡ false

LeBytes-trans : (s t u : Bytes) → LeBytes s t → LeBytes t u → LeBytes s u
unfolding bytes_ltb
LeBytes-trans [] t [] p q = refl
LeBytes-trans [] t (c ∷ u) p q = refl
LeBytes-trans (a ∷ s) [] u p q = cc
LeBytes-trans (a ∷ s) (b ∷ t) [] p q = cc
LeBytes-trans (a ∷ s) (b ∷ t) (c ∷ u) p q = ground (arith, LeBytes-trans s t u)

LeBytes-total : (s t : Bytes) → bytes_ltb s t ≡ true → LeBytes s t
unfolding bytes_ltb
LeBytes-total [] [] h = cc
LeBytes-total (a ∷ s) [] h = cc
LeBytes-total [] (b ∷ t) h = refl
LeBytes-total (a ∷ s) (b ∷ t) h = ground (arith, LeBytes-total s t)

module _ {ℓ} {A : Type ℓ} (key : A → Bytes) where
  -- Each element before all that follow it, and after them.
  abbrev pub Ascends : List A → Type 0
  Ascends [] = Unit
  Ascends (x ∷ xs) = All (λ y. LeBytes (key x) (key y)) xs × Ascends xs

  abbrev Descends : List A → Type 0
  Descends [] = Unit
  Descends (x ∷ xs) = All (λ y. LeBytes (key y) (key x)) xs × Descends xs

  below :
      (x y : A) (ys : List A)
      → LeBytes (key y) (key x)
      → All (λ z. LeBytes (key z) (key y)) ys
      → All (λ z. LeBytes (key z) (key x)) ys
  below x y [] h b = tt
  below x y (z ∷ zs) h b = (LeBytes-trans (key z) (key y) (key x) b.0 h, below x y zs h b.1)

  shift-All : (P : A → Type 0) (x : A) (ys : List A) → P x → All P ys → All P (shift key x ys)
  unfolding shift
  shift-All P x [] hx h = (hx, tt)
  shift-All P x (y ∷ ys) hx h = elim (Bool-cases (bytes_ltb (key x) (key y))) [
    | inl e ↦ rw e (h.0, shift-All P x ys hx h.1)
    | inr e ↦ rw e (hx, h)
  ]

  shift-Descends : (x : A) (ys : List A) → Descends ys → Descends (shift key x ys)
  unfolding shift
  shift-Descends x [] d = (tt, tt)
  shift-Descends x (y ∷ ys) d = elim (Bool-cases (bytes_ltb (key x) (key y))) [
    | inl e ↦ rw e (
      shift-All (λ z. LeBytes (key z) (key y)) x ys (LeBytes-total (key x) (key y) e) d.0,
      shift-Descends x ys d.1,
    )
    | inr e ↦ rw e ((e, below x y ys e d.0), d)
  ]

  sort_onto-Descends : (xs front : List A) → Descends front → Descends (sort_onto key xs front)
  unfolding sort_onto
  sort_onto-Descends [] front d = d
  sort_onto-Descends (x ∷ xs) front d =
      sort_onto-Descends xs (shift key x front) (shift-Descends x front d)

  All-snoc : (P : A → Type 0) (xs : List A) (x : A) → All P xs → P x → All P (xs ++ x ∷ [])
  All-snoc P [] x h hx = (hx, tt)
  All-snoc P (y ∷ ys) x h hx = (h.0, All-snoc P ys x h.1 hx)

  All-reverse : (P : A → Type 0) (xs : List A) → All P xs → All P (reverse xs)
  All-reverse P [] h = tt
  All-reverse P (x ∷ xs) h =
      subst (All P) (sym (reverse-cons x xs)) (All-snoc P (reverse xs) x (All-reverse P xs h.1) h.0)

  Ascends-snoc :
      (xs : List A) (x : A)
      → Ascends xs
      → All (λ z. LeBytes (key z) (key x)) xs
      → Ascends (xs ++ x ∷ [])
  Ascends-snoc [] x a h = (tt, tt)
  Ascends-snoc (y ∷ ys) x a h =
      (All-snoc (λ z. LeBytes (key y) (key z)) ys x a.0 h.0, Ascends-snoc ys x a.1 h.1)

  reverse-Ascends : (xs : List A) → Descends xs → Ascends (reverse xs)
  reverse-Ascends [] d = tt
  reverse-Ascends (x ∷ xs) d = subst Ascends (sym (reverse-cons x xs)) (
      Ascends-snoc (reverse xs) x (reverse-Ascends xs d.1)
        (All-reverse (λ z. LeBytes (key z) (key x)) xs d.0))

  pub insertion_sort-Ascends : (xs : List A) → Ascends (insertion_sort key xs)
  unfolding insertion_sort
  insertion_sort-Ascends xs = reverse-Ascends _ (sort_onto-Descends xs [] tt)

  shift-perm : (x : A) (ys : List A) → Perm (shift key x ys) (x ∷ ys)
  unfolding shift
  shift-perm x [] = Perm.rfl
  shift-perm x (y ∷ ys) = elim (Bool-cases (bytes_ltb (key x) (key y))) [
    | inl e ↦ rw e (Perm.trans (Perm.cons y (shift-perm x ys)) (Perm.swap x y ys))
    | inr e ↦ rw e Perm.rfl
  ]

  sort_onto-perm : (xs front : List A) → Perm (sort_onto key xs front) (xs ++ front)
  unfolding sort_onto
  sort_onto-perm [] front = Perm.rfl
  sort_onto-perm (x ∷ xs) front =
      Perm.trans (sort_onto-perm xs (shift key x front))
        (Perm.trans (Perm.append_left xs (shift-perm x front)) (perm_middle xs front))

  pub insertion_sort-perm : (xs : List A) → Perm (insertion_sort key xs) xs
  unfolding insertion_sort
  insertion_sort-perm xs =
      Perm.trans (reverse_perm _)
        (subst (Perm (sort_onto key xs [])) (append-nil xs) (sort_onto-perm xs []))
