-- ===== src/Bridge/Backups/Stored.antt =====
-- The backups that a bucket holds, and that Backups lists them all, in another order.
use toolhub.Common.{
  ℕ, suc, not, String, true, ◌&&◌, List, [], ◌∷◌, map, ok, >>=-eq-ok, member, ◌==◌, ◌≡◌, refl, ◌⊎◌,
  ◌≤◌, inl, inr, arith, Bool-cases, Result-cases, if◌then◌else◌,
}
use toolhub.Bridge.Bolt.{Bolt, Cell, json, corrupt}
use toolhub.Bridge.Backups.{Backup, is_newer, insert_backup, sort_backups, decode_backups, backups}

-- What decodes of the entries of a bucket.
abbrev pub stored : List (String × Cell Backup) → List Backup
stored [] = []
stored ((k, corrupt) ∷ es) = stored es
stored ((k, json x) ∷ es) = x ∷ stored es

abbrev pub ids : List Backup → List String
ids bs = map (λ (b : Backup). b.id) bs

-- How many backups of a target are none of those removed.
abbrev pub left : String → List String → List Backup → ℕ
left t removed [] = 0
left t removed (b ∷ bs) =
    let rest = left t removed bs in
    if b.target_id == t && not (member b.id removed) then suc rest else rest

abbrev pub AreIn : List String → List String → Type 0
AreIn [] ys = Unit
AreIn (x ∷ xs) ys = (member x ys ≡ true) × AreIn xs ys

-- What is not removed is not from before the cutoff.
abbrev pub AreRecent : ℕ → List String → List Backup → Type 0
AreRecent cutoff removed [] = Unit
AreRecent cutoff removed (b ∷ bs) =
    ((member b.id removed ≡ true) ⊎ (cutoff ≤ b.created_at)) × AreRecent cutoff removed bs

decode_backups-stored :
    (es : List (String × Cell Backup)) {bs : List Backup}
    → decode_backups "" es ≡ ok bs
    → bs ≡ stored es
unfolding decode_backups
decode_backups-stored [] h = ground (arith, h)
decode_backups-stored ((k, corrupt) ∷ es) h = absurd (ground (arith, h))
decode_backups-stored ((k, json b) ∷ es) h = elim (Result-cases (decode_backups "" es)) [
  | inl (e, q) ↦ absurd (ground (arith, q, h))
  | inr (rest, q) ↦ ground (arith, q, h, decode_backups-stored es q)
]

pub backups-stored :
    (bolt : Bolt) (b : bolt.Bucket (Cell Backup)) {items : List Backup}
    → backups bolt "" b ≡ ok items
    → items ≡ sort_backups (stored (bolt.entries b))
unfolding backups
backups-stored bolt b h =
    let (bs, decoded, sorted) =
      >>=-eq-ok (decode_backups "" (bolt.entries b)) (λ bs. ok (sort_backups bs)) h in
    ground (arith, sorted, decode_backups-stored (bolt.entries b) decoded)

left-insert_backup :
    (t : String) (removed : List String) (a : Backup) (bs : List Backup)
    → left t removed (insert_backup a bs) ≡ left t removed (a ∷ bs)
unfolding insert_backup
left-insert_backup t removed a [] = refl
left-insert_backup t removed a (b ∷ bs) = ground (arith, left-insert_backup t removed a bs)

pub left-sort_backups :
    (t : String) (removed : List String) (bs : List Backup)
    → left t removed (sort_backups bs) ≡ left t removed bs
unfolding sort_backups
left-sort_backups t removed [] = refl
left-sort_backups t removed (b ∷ bs) =
    ground (arith, left-sort_backups t removed bs, left-insert_backup t removed b (sort_backups bs))

AreRecent-insert_backup :
    (cutoff : ℕ) (removed : List String) (a : Backup) (bs : List Backup)
    → AreRecent cutoff removed (insert_backup a bs)
    → AreRecent cutoff removed (a ∷ bs)
unfolding insert_backup
AreRecent-insert_backup cutoff removed a [] h = h
AreRecent-insert_backup cutoff removed a (b ∷ bs) h = elim (Bool-cases (is_newer b a)) [
  | inr e ↦ rw e at h
  | inl e ↦
      let (first, rest) = rw e at h in
      let (new, old) = AreRecent-insert_backup cutoff removed a bs rest in (new, (first, old))
]

pub AreRecent-sort_backups :
    (cutoff : ℕ) (removed : List String) (bs : List Backup)
    → AreRecent cutoff removed (sort_backups bs)
    → AreRecent cutoff removed bs
unfolding sort_backups
AreRecent-sort_backups cutoff removed [] h = tt
AreRecent-sort_backups cutoff removed (b ∷ bs) h =
    let (first, rest) = AreRecent-insert_backup cutoff removed b (sort_backups bs) h in
    (first, AreRecent-sort_backups cutoff removed bs rest)
