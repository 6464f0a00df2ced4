-- ===== src/Bridge/Backups/Retention.antt =====
-- What the garbage collection of backups leaves.
use toolhub.Common.{
  All, ℕ, ◌*◌, ◌-◌, ◌≤◌, String, Bool, true, false, none, List, [], ◌∷◌, ok, occurrences, member,
  subst, ◌==◌, ◌≡◌, refl, sym, ap, ◌∙◌, arith, inl, inr, Bool-cases, Result-cases, eq_iff,
  if◌then◌else◌,
}
use toolhub.Common.Int.{ℤ, pos_part}
use toolhub.Bridge.Bolt.{Bolt, Cell}
use toolhub.Bridge.Auth.{second}
use toolhub.Bridge.Backups.Due.{IsDue, expired_backups-IsDue_sorted}
use toolhub.Bridge.Backups.Stored.{
  stored, ids, left, AreIn, AreRecent, backups-stored, left-sort_backups, AreRecent-sort_backups,
}
use toolhub.Bridge.Backups.{
  sort_backups, Backup, bad_retention, cutoff_of, expired_backups, remove_all, backups, delete_all,
  collected, collect, gc_backups,
}

AreIn-cons : (k : String) (xs ys : List String) → AreIn xs ys → AreIn xs (k ∷ ys)
AreIn-cons k [] ys h = tt
AreIn-cons k (x ∷ xs) ys (h, hs) = (ground (arith, h), AreIn-cons k xs ys hs)

AreIn-same : (xs : List String) → AreIn xs xs
AreIn-same [] = tt
AreIn-same (x ∷ xs) = (ground (arith, eq_iff x x), AreIn-cons x xs xs (AreIn-same xs))

-- Where the expired ones are removed, a target has no more than the limit, less those before.
left-limit :
    (cutoff limit : ℕ) (t : String) (seen removed : List String) (bs : List Backup)
    → AreIn (ids (expired_backups cutoff limit seen bs)) removed
    → left t removed bs ≤ limit - occurrences t seen
unfolding expired_backups
left-limit cutoff limit t seen removed [] h = omega arith
left-limit cutoff limit t seen removed (b ∷ bs) h =
    let rest = left-limit cutoff limit t (b.target_id ∷ seen) removed bs in
    elim (Bool-cases (b.target_id == t)) [
      | inr e ↦ ground (arith, e, rest, h)
      | inl e ↦ ground (
        arith,
        e,
        eq_iff b.target_id b.target_id,
        ap (λ k. occurrences k seen) ((eq_iff b.target_id t).0 e),
        rest,
        h,
      )
    ]

AreRecent-expired_backups :
    (cutoff limit : ℕ) (seen removed : List String) (bs : List Backup)
    → AreIn (ids (expired_backups cutoff limit seen bs)) removed
    → AreRecent cutoff removed bs
unfolding expired_backups
AreRecent-expired_backups cutoff limit seen removed [] h = tt
AreRecent-expired_backups cutoff limit seen removed (b ∷ bs) h =
    let rest = AreRecent-expired_backups cutoff limit (b.target_id ∷ seen) removed bs in
    ground (arith, rest, h)

module _ (bolt : Bolt) where
  open bolt use {Bucket, get, delete, entries, get-delete}

  get-delete_all :
      (k : String) (xs : List Backup) (b : Bucket (Cell Backup))
      → get k (delete_all bolt xs b) ≡ (if member k (ids xs) then none else get k b)
  unfolding delete_all
  get-delete_all k [] b = refl
  get-delete_all k (x ∷ xs) b =
      get-delete_all k xs (delete x.id b) ∙ (ground (arith, get-delete x.id k b))

  -- What a collection that succeeds has done.
  record Collected (now : ℕ) (days limit : ℤ) (b after : Bucket (Cell Backup))
      (removed : List String) : Type 0 where
    items : List Backup
    expired : List Backup
    listed : backups bolt "" b ≡ ok items
    chosen : expired ≡ expired_backups (cutoff_of now days) (pos_part limit) [] items
    reported : removed ≡ ids expired
    bucket : after ≡ delete_all bolt expired b

  collected-ok :
      {W : Type 0} (xs : List Backup) (b after : Bucket (Cell Backup)) (p : W × Bool) (w : W)
      (removed : List String)
      → collected bolt xs b p ≡ ((after, w), ok removed)
      → (removed ≡ ids xs) × (after ≡ delete_all bolt xs b)
  unfolding collected
  collected-ok xs b after (v, true) w removed h = absurd (ground (arith, h))
  collected-ok xs b after (v, false) w removed h = (cc (sym h), cc (sym h))

  gc_backups-Collected :
      {W : Type 0} (remove : Backup → W → W × Bool) (now : ℕ) (days limit : ℤ)
      (b after : Bucket (Cell Backup)) (w v : W) (removed : List String)
      → gc_backups bolt remove now days limit b w ≡ ((after, v), ok removed)
      → Collected now days limit b after removed
  unfolding gc_backups collect
  gc_backups-Collected remove now days limit b after w v removed h =
      elim (Bool-cases (bad_retention days limit)) [
        | inl e ↦ absurd (ground (arith, e, h))
        | inr e ↦ elim (Result-cases (backups bolt "" b)) [
          | inl (x, q) ↦ absurd (ground (arith, e, q, h))
          | inr (items, q) ↦
              let xs = expired_backups (cutoff_of now days) (pos_part limit) [] items in
              let (r, d) =
                collected-ok xs b after (remove_all remove xs w) v removed
                  (rw (e, q, gc_backups, collect) at h) in
              record {
                items = items;
                expired = xs;
                listed = q;
                chosen = refl;
                reported = r;
                bucket = d;
              }
        ]
      ]

  -- A collection that succeeds deletes exactly the backups that it reports. Each of them is a stored backup
  -- from before the cutoff, or one of a target of which more stored backups than the limit are as new, and
  -- it is among these; of the stored backups of each target no more than the limit are not reported, and
  -- none from before the cutoff.
  pub gc_backups-limit :
      {W : Type 0} (remove : Backup → W → W × Bool) (now : ℕ) (days limit : ℤ)
      (b after : Bucket (Cell Backup)) (w v : W) (removed : List String) (k t : String)
      → gc_backups bolt remove now days limit b w ≡ ((after, v), ok removed)
      → (get k after ≡ (if member k removed then none else get k b))
        × All
            (IsDue (now - pos_part days * (86400 * second)) (pos_part limit) (stored (entries b)))
            removed
        × (left t removed (stored (entries b)) ≤ pos_part limit)
        × AreRecent (now - pos_part days * (86400 * second)) removed (stored (entries b))
  gc_backups-limit remove now days limit b after w v removed k t h =
      let c = gc_backups-Collected remove now days limit b after w v removed h in
      let cutoff = cutoff_of now days in
      let bs = stored (entries b) in
      let items : List Backup = sort_backups bs in
      let sorted : c.items ≡ items = backups-stored bolt b c.listed in
      let chosen : removed ≡ ids (expired_backups cutoff (pos_part limit) [] items) =
        c.reported
        ∙ (ap ids c.chosen
            ∙ ap (λ xs. ids (expired_backups cutoff (pos_part limit) [] xs)) sorted) in
      let all = subst (λ r. AreIn r removed) chosen (AreIn-same removed) in
      (
        ap (λ a. get k a) c.bucket
            ∙ (get-delete_all k c.expired b
                ∙ ap (λ r. if member k r then none else get k b) (sym c.reported)),
        subst (λ r. All (IsDue cutoff (pos_part limit) bs) r) (sym chosen)
            (expired_backups-IsDue_sorted cutoff (pos_part limit) bs),
        omega (
          arith,
          left-sort_backups t removed bs,
          left-limit cutoff (pos_part limit) t [] removed items all,
        ),
        AreRecent-sort_backups cutoff removed bs
            (AreRecent-expired_backups cutoff (pos_part limit) [] removed items all),
      )
