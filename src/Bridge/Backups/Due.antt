-- ===== src/Bridge/Backups/Due.antt =====
-- Why the garbage collection of backups removes one: it is old, or there are enough newer ones.
use toolhub.Common.{
  ℕ, suc, ◌+◌, String, Bool, true, false, ◌&&◌, List, [], ◌∷◌, map, occurrences, ltb, leb, ◌||◌,
  ◌==◌, ◌≡◌, refl, ◌⊎◌, ◌≤◌, ◌<◌, inl, inr, arith, Bool-cases, All, if◌then◌else◌,
}
use toolhub.Common.Sort.Least.{IsIn}
use toolhub.Bridge.Backups.{Backup, is_newer, insert_backup, sort_backups, expired_backups}
use toolhub.Bridge.Backups.Stored.{ids}

abbrev number_of : (Backup → Bool) → List Backup → ℕ
number_of p [] = 0
number_of p (b ∷ bs) = let rest = number_of p bs in if p b then suc rest else rest

-- A backup of the same target that is not older; a backup is so of itself.
abbrev is_as_new : Backup → Backup → Bool
is_as_new x y = y.target_id == x.target_id && leb x.created_at y.created_at

-- An identifier of one of the backups, which is from before the cutoff, or of the target of which more
-- than the limit are as new.
abbrev pub IsDue : ℕ → ℕ → List Backup → String → Type 0
IsDue cutoff limit bs id =
    (x : Backup) × IsIn x bs
    × (x.id ≡ id)
    × ((x.created_at < cutoff) ⊎ (limit < number_of (is_as_new x) bs))

abbrev targets : List Backup → List String
targets bs = map (λ (b : Backup). b.target_id) bs

abbrev IsDescending : List Backup → Type 0
IsDescending [] = Unit
IsDescending (b ∷ bs) = All (λ (x : Backup). x.created_at ≤ b.created_at) bs × IsDescending bs

-- Each of the backups is no newer than all of the others.
abbrev AreBelow : List Backup → List Backup → Type 0
AreBelow pre [] = Unit
AreBelow pre (x ∷ xs) = All (λ (y : Backup). x.created_at ≤ y.created_at) pre × AreBelow pre xs

AreBelow-cons :
    (b : Backup) (pre bs : List Backup)
    → All (λ (x : Backup). x.created_at ≤ b.created_at) bs
    → AreBelow pre bs
    → AreBelow (b ∷ pre) bs
AreBelow-cons b pre [] h k = tt
AreBelow-cons b pre (x ∷ xs) (h, hs) (k, ks) = ((h, k), AreBelow-cons b pre xs hs ks)

AreBelow-nil : (bs : List Backup) → AreBelow [] bs
AreBelow-nil [] = tt
AreBelow-nil (b ∷ bs) = (tt, AreBelow-nil bs)

occurrences-number_of :
    (x : Backup) (pre : List Backup)
    → All (λ (y : Backup). x.created_at ≤ y.created_at) pre
    → occurrences x.target_id (targets pre) ≡ number_of (is_as_new x) pre
occurrences-number_of x [] h = refl
occurrences-number_of x (y ∷ ys) (h, hs) = ground (arith, h, occurrences-number_of x ys hs)

All-insert_backup :
    (P : Backup → Type 0) (a : Backup) (bs : List Backup)
    → P a
    → All P bs
    → All P (insert_backup a bs)
unfolding insert_backup
All-insert_backup P a [] p ps = (p, tt)
All-insert_backup P a (b ∷ bs) p (q, qs) = elim (Bool-cases (is_newer b a)) [
  | inl e ↦ rw e (q, All-insert_backup P a bs p qs)
  | inr e ↦ rw e (p, (q, qs))
]

All-sort_backups : (P : Backup → Type 0) (bs : List Backup) → All P bs → All P (sort_backups bs)
unfolding sort_backups
All-sort_backups P [] ps = tt
All-sort_backups P (b ∷ bs) (p, ps) =
    All-insert_backup P b (sort_backups bs) p (All-sort_backups P bs ps)

All-map :
    (P Q : Backup → Type 0) (bs : List Backup) → ((x : Backup) → P x → Q x) → All P bs → All Q bs
All-map P Q [] f ps = tt
All-map P Q (b ∷ bs) f (p, ps) = (f b p, All-map P Q bs f ps)

All-IsIn : (bs : List Backup) → All (λ x. IsIn x bs) bs
All-IsIn [] = tt
All-IsIn (b ∷ bs) =
    (inl refl, All-map (λ x. IsIn x bs) (λ x. IsIn x (b ∷ bs)) bs (λ x h. inr h) (All-IsIn bs))

is_newer-true : (b a : Backup) → is_newer b a ≡ true → a.created_at ≤ b.created_at
unfolding is_newer
is_newer-true b a h = ground (arith, h)

is_newer-false : (b a : Backup) → is_newer b a ≡ false → b.created_at ≤ a.created_at
unfolding is_newer
is_newer-false b a h = ground (arith, h)

insert_backup-IsDescending :
    (a : Backup) (bs : List Backup) → IsDescending bs → IsDescending (insert_backup a bs)
unfolding insert_backup
insert_backup-IsDescending a [] h = (tt, tt)
insert_backup-IsDescending a (b ∷ bs) (h, hs) = elim (Bool-cases (is_newer b a)) [
  | inl e ↦ rw e (
    All-insert_backup (λ x. x.created_at ≤ b.created_at) a bs (is_newer-true b a e) h,
    insert_backup-IsDescending a bs hs,
  )
  | inr e ↦
      let older = is_newer-false b a e in
      rw e (
        (
          older,
          All-map (λ x. x.created_at ≤ b.created_at) (λ x. x.created_at ≤ a.created_at) bs
              (λ x k. omega (arith, k, older)) h,
        ),
        (h, hs),
      )
]

sort_backups-IsDescending : (bs : List Backup) → IsDescending (sort_backups bs)
unfolding sort_backups
sort_backups-IsDescending [] = tt
sort_backups-IsDescending (b ∷ bs) =
    insert_backup-IsDescending b (sort_backups bs) (sort_backups-IsDescending bs)

number_of-insert_backup :
    (p : Backup → Bool) (a : Backup) (bs : List Backup)
    → number_of p (insert_backup a bs) ≡ number_of p (a ∷ bs)
unfolding insert_backup
number_of-insert_backup p a [] = refl
number_of-insert_backup p a (b ∷ bs) = ground (arith, number_of-insert_backup p a bs)

number_of-sort_backups :
    (p : Backup → Bool) (bs : List Backup) → number_of p (sort_backups bs) ≡ number_of p bs
unfolding sort_backups
number_of-sort_backups p [] = refl
number_of-sort_backups p (b ∷ bs) =
    ground (arith, number_of-sort_backups p bs, number_of-insert_backup p b (sort_backups bs))

module _ (cutoff limit : ℕ) (all : List Backup) where
  -- The newer ones of a target, counted so far, are among all.
  expired_backups-IsDue :
      (pre bs : List Backup)
      → All (λ x. IsIn x all) bs
      → AreBelow pre bs
      → IsDescending bs
      → ((p : Backup → Bool) → number_of p pre + number_of p bs ≤ number_of p all)
      → All (IsDue cutoff limit all) (ids (expired_backups cutoff limit (targets pre) bs))
  unfolding expired_backups
  expired_backups-IsDue pre [] there below falls counts = tt
  expired_backups-IsDue pre (b ∷ bs) (here, there) (low, below) (first, falls) counts =
      let rest =
        expired_backups-IsDue (b ∷ pre) bs there (AreBelow-cons b pre bs first below) falls
          (λ p. ground (arith, counts p)) in
      elim (Bool-cases
        (ltb b.created_at cutoff || ltb limit (occurrences b.target_id (targets (b ∷ pre))))) [
          | inr e ↦ rw e rest
          | inl e ↦ rw e (
            (
              b,
              here,
              refl,
              elim (Bool-cases (ltb b.created_at cutoff)) [
                | inl old ↦ inl (ground (arith, old))
                | inr new ↦
                    let many : limit < occurrences b.target_id (targets (b ∷ pre)) =
                      ground (arith, e, new) in
                    let same = occurrences-number_of b (b ∷ pre) (omega arith, low) in
                    let less : number_of (is_as_new b) (b ∷ pre) ≤ number_of (is_as_new b) all =
                      ground (arith, counts (is_as_new b)) in
                    inr (omega (arith, many, same, less))
              ],
            ),
            rest,
          )
        ]

pub expired_backups-IsDue_sorted :
    (cutoff limit : ℕ) (bs : List Backup)
    → All (IsDue cutoff limit bs) (ids (expired_backups cutoff limit [] (sort_backups bs)))
expired_backups-IsDue_sorted cutoff limit bs =
    expired_backups-IsDue cutoff limit bs [] (sort_backups bs)
      (All-sort_backups (λ x. IsIn x bs) bs (All-IsIn bs)) (AreBelow-nil (sort_backups bs))
      (sort_backups-IsDescending bs) (λ p. omega (arith, number_of-sort_backups p bs))
