-- ===== src/Common/Sort/Least.antt =====
-- What stands first after a sort: a member with a least key.
use Prim.Native.String.{String}
use mathlib.Core.Path.{◌≡◌, refl, subst}
use mathlib.Core.Bool.{false}
use mathlib.Core.List.{List, [], ◌∷◌}
use mathlib.Core.Logic.{◌⊎◌, inl, inr}
use toolhub.Common.Lists.{All}
use toolhub.Common.Order.{text_lt_irrefl, text_lt_asymm, text_lt_trans_false}
use toolhub.Common.Sort.{insert_by, sort_by}
use toolhub.Common.Tests.{Bool-cases}
use toolhub.Common.Text.{text_lt}

abbrev pub IsIn : {A : Type 0} → A → List A → Type 0
IsIn a [] = ⊥
IsIn a (x ∷ xs) = (a ≡ x) ⊎ IsIn a xs

module _ {A : Type 0} (key : A → String) where
  module _ (P : A → Type 0) where
    All-insert_by : (x : A) (ys : List A) → P x → All P ys → All P (insert_by key x ys)
    unfolding insert_by
    All-insert_by x [] p ps = (p, tt)
    All-insert_by x (y ∷ ys) p (q, qs) = elim (Bool-cases (text_lt (key y) (key x))) [
      | inl e ↦ rw e (q, All-insert_by x ys p qs)
      | inr e ↦ rw e (p, (q, qs))
    ]

    insert_by-All : (x : A) (ys : List A) → All P (insert_by key x ys) → P x × All P ys
    unfolding insert_by
    insert_by-All x [] ps = ps
    insert_by-All x (y ∷ ys) ps = elim (Bool-cases (text_lt (key y) (key x))) [
      | inl e ↦ let (q, rest) = rw e at ps in let (p, qs) = insert_by-All x ys rest in (p, (q, qs))
      | inr e ↦ rw e at ps
    ]

    sort_by-All : (xs : List A) → All P (sort_by key xs) → All P xs
    unfolding sort_by
    sort_by-All [] ps = tt
    sort_by-All (x ∷ xs) ps =
        let (p, rest) = insert_by-All x (sort_by key xs) ps in (p, sort_by-All xs rest)

  insert_by-IsIn : (a x : A) (ys : List A) → IsIn a (insert_by key x ys) → IsIn a (x ∷ ys)
  unfolding insert_by
  insert_by-IsIn a x [] h = h
  insert_by-IsIn a x (y ∷ ys) h = elim (Bool-cases (text_lt (key y) (key x))) [
    | inr e ↦ rw e at h
    | inl e ↦ elim (rw e at h) [
      | inl same ↦ inr (inl same)
      | inr more ↦ elim (insert_by-IsIn a x ys more) [ inl here ↦ inl here | inr r ↦ inr (inr r) ]
    ]
  ]

  sort_by-IsIn : (a : A) (xs : List A) → IsIn a (sort_by key xs) → IsIn a xs
  unfolding sort_by
  sort_by-IsIn a [] h = h
  sort_by-IsIn a (x ∷ xs) h = elim (insert_by-IsIn a x (sort_by key xs) h) [
    | inl here ↦ inl here
    | inr more ↦ inr (sort_by-IsIn a xs more)
  ]

  -- No key of the list is below the one of the element.
  abbrev pub IsLeast : A → List A → Type 0
  IsLeast a xs = All (λ y. text_lt (key y) (key a) ≡ false) xs

  IsLeast-trans :
      (a b : A) (xs : List A) → text_lt (key b) (key a) ≡ false → IsLeast b xs → IsLeast a xs
  IsLeast-trans a b [] h k = tt
  IsLeast-trans a b (x ∷ xs) h (k, ks) =
      (text_lt_trans_false (key a) (key b) (key x) h k, IsLeast-trans a b xs h ks)

  HasLeastHead : List A → Type 0
  HasLeastHead [] = Unit
  HasLeastHead (x ∷ xs) = IsLeast x (x ∷ xs)

  insert_by-HasLeastHead :
      (x : A) (ys : List A) → HasLeastHead ys → HasLeastHead (insert_by key x ys)
  unfolding insert_by HasLeastHead
  insert_by-HasLeastHead x [] h = (text_lt_irrefl (key x), tt)
  insert_by-HasLeastHead x (y ∷ ys) (h, hs) = elim (Bool-cases (text_lt (key y) (key x))) [
    | inl e ↦ rw e (
      h,
      All-insert_by (λ z. text_lt (key z) (key y) ≡ false) x ys (text_lt_asymm (key y) (key x) e)
          hs,
    )
    | inr e ↦ rw e (text_lt_irrefl (key x), (e, IsLeast-trans x y ys e hs))
  ]

  sort_by-HasLeastHead : (xs : List A) → HasLeastHead (sort_by key xs)
  unfolding sort_by HasLeastHead
  sort_by-HasLeastHead [] = tt
  sort_by-HasLeastHead (x ∷ xs) =
      insert_by-HasLeastHead x (sort_by key xs) (sort_by-HasLeastHead xs)

  -- The first element after a sort is one of the list, and no key is below its key.
  pub sort_by-first :
      (xs : List A) (a : A) (rest : List A) → sort_by key xs ≡ a ∷ rest → IsIn a xs × IsLeast a xs
  unfolding HasLeastHead
  sort_by-first xs a rest h = (
    sort_by-IsIn a xs (rw h (inl refl)),
    sort_by-All (λ z. text_lt (key z) (key a) ≡ false) xs
        (rw h (subst HasLeastHead h (sort_by-HasLeastHead xs))),
  )
