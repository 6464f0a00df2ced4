-- ===== src/Common/Results.antt =====
-- Fallible code: a value and an `error`, of which one is there.
use mathlib.Core.Path.{◌≡◌, refl}
use mathlib.Core.Logic.{◌⊎◌, inl, inr}

pub data Result {ℓ} (E A : Type ℓ) : Type ℓ where
  ok : A → Result E A
  err : E → Result E A

module _ {ℓ} {E A : Type ℓ} where
  pub Result-cases : (r : Result E A) → ((e : E) × (r ≡ err e)) ⊎ ((a : A) × (r ≡ ok a))
  Result-cases (err e) = inl (e, refl)
  Result-cases (ok a) = inr (a, refl)

  module _ {B : Type ℓ} where
    infixl 5 ◌>>=◌
    abbrev pub ◌>>=◌ : Result E A → (A → Result E B) → Result E B
    err e >>= next = err e
    ok x >>= next = next x

    -- What comes after a first step is reached only if that step succeeds.
    pub >>=-eq-ok :
        (first : Result E A) (next : A → Result E B) {y : B}
        → (first >>= next) ≡ ok y
        → (x : A) × (first ≡ ok x) × (next x ≡ ok y)
    >>=-eq-ok (err e) next q = cc
    >>=-eq-ok (ok x) next q = (x, refl, q)
