-- ===== src/Bridge/Bolt.antt =====
-- What the journal takes from go.etcd.io/bbolt: a bucket of keys and values. A transaction that
-- returns an error leaves the buckets as they were; the functions of the journal say so themselves.
pub mod Assoc
pub mod Entries
use toolhub.Common.{
  ℕ, ◌≤◌, String, len, Bool, true, Option, none, some, List, [], ◌∷◌, map, IsUnique, ◌==◌, ◌≡◌,
  if◌then◌else◌,
}

-- The value at a key of a list of entries.
abbrev pub lookup {ℓ} : {V : Type ℓ} → String → List (String × V) → Option V
lookup k [] = none
lookup k ((j, v) ∷ es) = if j == k then some v else lookup k es

abbrev pub keys {ℓ} : {V : Type ℓ} → List (String × V) → List String
keys [] = []
keys ((j, v) ∷ es) = j ∷ keys es

pub record Bolt : Type 1 where
  pub Bucket : Type 0 → Type 0
  pub get : {V : Type 0} → String → Bucket V → Option V
  pub put : {V : Type 0} → String → V → Bucket V → Bucket V
  pub delete : {V : Type 0} → String → Bucket V → Bucket V
  -- The entries in the order of a cursor.
  pub entries : {V : Type 0} → Bucket V → List (String × V)
  -- Put returns an error where the key is empty or too large.
  pub accepts : String → Bool
  pub accepts-len : (k : String) → 1 ≤ len k → len k ≤ 32768 → accepts k ≡ true
  pub get-put :
      {V : Type 0} (k j : String) (v : V) (b : Bucket V)
      → get j (put k v b) ≡ (if k == j then some v else get j b)
  pub get-delete :
      {V : Type 0} (k j : String) (b : Bucket V)
      → get j (delete k b) ≡ (if k == j then none else get j b)
  pub get-entries : {V : Type 0} (k : String) (b : Bucket V) → get k b ≡ lookup k (entries b)
  pub entries_unique : {V : Type 0} (b : Bucket V) → IsUnique (keys (entries b))

-- The bytes of a stored value: the JSON of a record, or what json.Unmarshal refuses.
pub data Cell (V : Type 0) : Type 0 where
  json : V → Cell V
  corrupt : Cell V
