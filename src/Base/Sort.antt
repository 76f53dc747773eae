-- ===== src/Base/Sort.antt =====
-- The insertion sort that the program writes out wherever it lists names. The sorted front of the
-- slice is kept in reverse, since the inner loop walks it from its end.
pub mod Laws
use net_cat.Base.Tests.{if◌then◌else◌}
use net_cat.Base.Text.{Bytes, bytes_ltb}
use mathlib.Core.List.{List, [], ◌∷◌, reverse}

module _ {ℓ} {A : Type ℓ} (key : A → Bytes) where
  -- `for j >= 0 && names[j] > key { names[j+1] = names[j]; j-- }`.
  shift : A → List A → List A
  shift x [] = x ∷ []
  shift x (y ∷ ys) = if bytes_ltb (key x) (key y) then y ∷ shift x ys else x ∷ y ∷ ys

  sort_onto : List A → List A → List A
  sort_onto [] front = front
  sort_onto (x ∷ xs) front = sort_onto xs (shift x front)

  unfoldable pub insertion_sort : List A → List A
  unfolding sort_onto shift
  insertion_sort xs = reverse (sort_onto xs [])
