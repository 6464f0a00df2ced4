-- ===== src/Bridge/Bolt/Assoc.antt =====
-- A list of entries in the place of bbolt.
use toolhub.Common.{
  String, len, true, false, not, Option, none, some, List, [], ◌∷◌, IsUnique, IsUnique-cons, member,
  ◌≤◌, occurrences, ◌==◌, ◌≡◌, refl, ap, arith, inl, inr, Bool-cases, eq_iff, if◌then◌else◌,
}
use toolhub.Bridge.Bolt.{Bolt, lookup, keys}

module _ {ℓ} {V : Type ℓ} where
  unfoldable pub without : String → List (String × V) → List (String × V)
  without k [] = []
  without k ((j, v) ∷ es) = let rest = without k es in if j == k then rest else (j, v) ∷ rest

  lookup-without :
      (k j : String) (es : List (String × V))
      → lookup j (without k es) ≡ (if k == j then none else lookup j es)
  unfolding without
  lookup-without k j [] = ground arith
  lookup-without k j ((i, v) ∷ es) =
      ground (arith, lookup-without k j es, eq_iff i k, eq_iff i j, eq_iff k j)

  member-without :
      (k j : String) (es : List (String × V))
      → member j (keys (without k es)) ≡ (if k == j then false else member j (keys es))
  unfolding without
  member-without k j [] = ground arith
  member-without k j ((i, v) ∷ es) =
      ground (arith, member-without k j es, eq_iff i k, eq_iff i j, eq_iff k j)

  pub not-member-without :
      (k : String) (es : List (String × V)) → member k (keys (without k es)) ≡ false
  not-member-without k es = ground (arith, member-without k k es, eq_iff k k)

  occurrences-without :
      (k j : String) (es : List (String × V))
      → occurrences j (keys (without k es)) ≤ occurrences j (keys es)
  unfolding without
  occurrences-without k j [] = omega arith
  occurrences-without k j ((i, v) ∷ es) = ground (arith, occurrences-without k j es)

  pub IsUnique-without :
      (k : String) (es : List (String × V)) → IsUnique (keys es) → IsUnique (keys (without k es))
  IsUnique-without k es u j = omega (arith, u j, occurrences-without k j es)

-- The entries with the proof that no key stands twice.
pub Entries : Type 0 → Type 0
Entries V = (es : List (String × V)) × IsUnique (keys es)

unfoldable pub put_entry : {V : Type 0} → String → V → Entries V → Entries V
unfolding Entries without
put_entry k v (es, u) = (
  (k, v) ∷ without k es,
  IsUnique-cons k (keys (without k es)) (not-member-without k es) (IsUnique-without k es u),
)

unfoldable pub delete_entry : (V : Type 0) → String → Entries V → Entries V
unfolding Entries without
delete_entry V k (es, u) = (without k es, IsUnique-without k es u)

unfoldable pub get_entry : {V : Type 0} → String → Entries V → Option V
unfolding Entries
get_entry k (es, u) = lookup k es

unfoldable pub list_entries : {V : Type 0} → Entries V → List (String × V)
unfolding Entries
list_entries (es, u) = es

pub get_entry-put :
    {V : Type 0} (k j : String) (v : V) (b : Entries V)
    → get_entry j (put_entry k v b) ≡ (if k == j then some v else get_entry j b)
unfolding get_entry put_entry
get_entry-put k j v (es, u) = ground (arith, lookup-without k j es)

pub get_entry-delete :
    {V : Type 0} (k j : String) (b : Entries V)
    → get_entry j (delete_entry V k b) ≡ (if k == j then none else get_entry j b)
unfolding get_entry delete_entry
get_entry-delete {V} k j (es, u) = lookup-without k j es

pub get_entry-entries :
    {V : Type 0} (k : String) (b : Entries V) → get_entry k b ≡ lookup k (list_entries b)
unfolding get_entry list_entries
get_entry-entries k (es, u) = refl

pub list_entries-IsUnique : (V : Type 0) (b : Entries V) → IsUnique (keys (list_entries b))
unfolding list_entries
list_entries-IsUnique V (es, u) = u

pub not_empty : (k : String) → 1 ≤ len k → not (k == "") ≡ true
not_empty k h = elim (Bool-cases (k == "")) [
  | inl e ↦ absurd (omega (arith, h, ap len ((eq_iff k "").0 e)))
  | inr e ↦ rw e refl
]

-- bbolt as a list of entries, with no limit on the size of a key.
abbrev pub assoc : Bolt
assoc = record {
  Bucket = Entries;
  get = get_entry;
  put = put_entry;
  delete = λ {V} k b. delete_entry V k b;
  entries = list_entries;
  accepts = λ k. not (k == "");
  accepts-len = λ k h l. not_empty k h;
  get-put = get_entry-put;
  get-delete = get_entry-delete;
  get-entries = get_entry-entries;
  entries_unique = λ {V} b. list_entries-IsUnique V b;
}

unfoldable pub empty_bucket : (V : Type 0) → Entries V
unfolding Entries
empty_bucket V = ([], λ k. omega arith)
