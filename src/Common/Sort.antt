-- ===== src/Common/Sort.antt =====
-- sort.Slice and sort.Strings, as an insertion sort by a text. Go leaves the order of equal keys open.
pub mod Least
use Prim.Native.Nat.{suc}
use toolhub.Common.Text.{text_lt}
use toolhub.Common.Tests.{if◌then◌else◌}
use toolhub.Common.Lists.{length, all, occurrences}
use Prim.Native.String.{String}
use mathlib.Core.Path.{◌≡◌, refl}
use mathlib.Core.Bool.{Bool}
use mathlib.Core.List.{List, [], ◌∷◌, map}
use native.Mathlib.Omega.{arith}

module _ {ℓ} {A : Type ℓ} (key : A → String) where
  insert_by : A → List A → List A
  insert_by x [] = x ∷ []
  insert_by x (y ∷ ys) =
      let rest = insert_by x ys in if text_lt (key y) (key x) then y ∷ rest else x ∷ y ∷ ys

  unfoldable pub sort_by : List A → List A
  unfolding insert_by
  sort_by [] = []
  sort_by (x ∷ xs) = insert_by x (sort_by xs)

-- Sorting keeps the keys, as often as they stand.
module _ {ℓ} {A : Type ℓ} (key : A → String) where
  occurrences-insert_by :
      (k : String) (x : A) (xs : List A)
      → occurrences k (map key (insert_by key x xs)) ≡ occurrences k (key x ∷ map key xs)
  unfolding insert_by
  occurrences-insert_by k x [] = refl
  occurrences-insert_by k x (y ∷ ys) = ground (arith, occurrences-insert_by k x ys)

  pub occurrences-sort_by :
      (k : String) (xs : List A)
      → occurrences k (map key (sort_by key xs)) ≡ occurrences k (map key xs)
  unfolding sort_by
  occurrences-sort_by k [] = refl
  occurrences-sort_by k (x ∷ xs) =
      ground (arith, occurrences-sort_by k xs, occurrences-insert_by k x (sort_by key xs))

  length-insert_by : (x : A) (xs : List A) → length (insert_by key x xs) ≡ suc (length xs)
  unfolding insert_by
  length-insert_by x [] = refl
  length-insert_by x (y ∷ ys) = ground (arith, length-insert_by x ys)

  pub length-sort_by : (xs : List A) → length (sort_by key xs) ≡ length xs
  unfolding sort_by
  length-sort_by [] = refl
  length-sort_by (x ∷ xs) = omega (arith, length-sort_by xs, length-insert_by x (sort_by key xs))

  all-insert_by : (p : A → Bool) (x : A) (xs : List A) → all p (insert_by key x xs) ≡ all p (x ∷ xs)
  unfolding insert_by
  all-insert_by p x [] = refl
  all-insert_by p x (y ∷ ys) = ground (arith, all-insert_by p x ys)

  pub all-sort_by : (p : A → Bool) (xs : List A) → all p (sort_by key xs) ≡ all p xs
  unfolding sort_by
  all-sort_by p [] = refl
  all-sort_by p (x ∷ xs) = ground (arith, all-sort_by p xs, all-insert_by p x (sort_by key xs))
