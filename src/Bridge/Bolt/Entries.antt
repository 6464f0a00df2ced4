-- ===== src/Bridge/Bolt/Entries.antt =====
-- The entries of a bucket and the value at a key.
use toolhub.Common.{
  ◌≤◌, String, some, List, [], ◌∷◌, occurrences, ◌==◌, ◌≡◌, ◌⊎◌, inl, inr, arith, eq_iff,
  Bool-cases,
}
use toolhub.Bridge.Bolt.{Bolt, lookup, keys}

-- Every entry at the key has the value.
abbrev pub Agrees {ℓ} : {V : Type ℓ} → String → V → List (String × V) → Type ℓ
Agrees n v [] = Unit
Agrees n v ((k, x) ∷ es) = ((k ≡ n → ⊥) ⊎ (x ≡ v)) × Agrees n v es

module _ {ℓ} {V : Type ℓ} (n : String) (v : V) where
  Agrees-absent : (es : List (String × V)) → occurrences n (keys es) ≡ 0 → Agrees n v es
  Agrees-absent [] h = tt
  Agrees-absent ((k, x) ∷ es) h =
      (inl (λ e. ground (arith, eq_iff k n)), Agrees-absent es (ground arith))

  pub Agrees-lookup :
      (es : List (String × V)) → occurrences n (keys es) ≤ 1 → lookup n es ≡ some v → Agrees n v es
  Agrees-lookup [] u h = tt
  Agrees-lookup ((k, x) ∷ es) u h = elim (Bool-cases (k == n)) [
    | inl e ↦ (inr (ground (arith, e)), Agrees-absent es (ground (arith, e)))
    | inr e ↦ (
      inl (λ q. ground (arith, eq_iff k n)),
      Agrees-lookup es (ground (arith, e)) (ground (arith, e)),
    )
  ]

module _ (bolt : Bolt) where
  -- The entries of a bucket agree with the value that it has at a key.
  pub entries-Agrees :
      {V : Type 0} (n : String) (v : V) (b : bolt.Bucket V)
      → bolt.get n b ≡ some v
      → Agrees n v (bolt.entries b)
  entries-Agrees n v b h =
      Agrees-lookup n v (bolt.entries b) (bolt.entries_unique b n)
        (ground (arith, bolt.get-entries n b))
