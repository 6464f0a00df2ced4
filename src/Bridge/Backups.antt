-- ===== src/Bridge/Backups.antt =====
-- internal/bridge/journal.go and journal_helpers.go: the backups of the journal and their garbage
-- collection. The world that `remove` acts on is a parameter.
pub mod Stored
pub mod Due
pub mod Retention
mod Tests
use toolhub.Common.{
  ℕ, ◌+◌, ◌-◌, ◌*◌, String, Bool, true, false, ◌&&◌, ◌||◌, List, [], ◌∷◌, map, Result, ok, err,
  ◌>>=◌, ltb, eqb, occurrences, ◌==◌, if◌then◌else◌,
}
use toolhub.Common.Text.{text_lt}
use toolhub.Common.Int.{ℤ, pos, negsuc, ltb_ℤ, pos_part}
use toolhub.Bridge.Bolt.{Bolt, Cell, json, corrupt}
use toolhub.Bridge.Auth.{second}

pub record Backup : Type 0 where
  pub id : String
  pub target_id : String
  pub node_kind : String
  pub salt_minion_id : String
  pub runtime : String
  pub source_operation_id : String
  pub revision : String
  pub created_at : ℕ

pub data BackupError : Type 0 where
  bad_limits malformed_backup not_removed : BackupError

-- sortBackups: the newest first, and of one time the larger identifier first.
is_newer : Backup → Backup → Bool
is_newer a b =
    if eqb a.created_at b.created_at then text_lt b.id a.id else ltb b.created_at a.created_at

insert_backup : Backup → List Backup → List Backup
unfolding is_newer
insert_backup a [] = a ∷ []
insert_backup a (b ∷ bs) =
    let rest = insert_backup a bs in if is_newer b a then b ∷ rest else a ∷ b ∷ bs

unfoldable pub sort_backups : List Backup → List Backup
unfolding insert_backup
sort_backups [] = []
sort_backups (b ∷ bs) = insert_backup b (sort_backups bs)

-- The loop over the stored values.
decode_backups : String → List (String × Cell Backup) → Result BackupError (List Backup)
decode_backups target [] = ok []
decode_backups target ((k, corrupt) ∷ es) = err malformed_backup
decode_backups target ((k, json b) ∷ es) = decode_backups target es >>= λ rest.
    ok (if target == "" || b.target_id == target then b ∷ rest else rest)

-- The loop that counts the backups of each target; `seen` has the target of each one before.
unfoldable pub expired_backups : ℕ → ℕ → List String → List Backup → List Backup
expired_backups cutoff limit seen [] = []
expired_backups cutoff limit seen (b ∷ bs) =
    let kept = b.target_id ∷ seen in
    let rest = expired_backups cutoff limit kept bs in
    if ltb b.created_at cutoff || ltb limit (occurrences b.target_id kept) then b ∷ rest else rest

-- The removal of each backup, up to the first error; `true` is an error.
remove_all : {W : Type 0} → (Backup → W → W × Bool) → List Backup → W → W × Bool
remove_all remove [] w = (w, false)
remove_all remove (b ∷ bs) w =
    let (w', failed) = remove b w in
    let rest = remove_all remove bs w' in if failed then (w', true) else rest

abbrev pub bad_retention : ℤ → ℤ → Bool
bad_retention days limit =
    ltb_ℤ days (pos 1) || ltb_ℤ (pos 3650) days || ltb_ℤ limit (pos 1) || ltb_ℤ (pos 1000) limit

abbrev pub cutoff_of : ℕ → ℤ → ℕ
cutoff_of now days = now - pos_part days * (86400 * second)

module _ (bolt : Bolt) where
  open bolt use {Bucket, delete, entries}

  -- Journal.Backups
  unfoldable pub backups : String → Bucket (Cell Backup) → Result BackupError (List Backup)
  unfolding decode_backups
  backups target b = decode_backups target (entries b) >>= λ bs. ok (sort_backups bs)

  delete_all : List Backup → Bucket (Cell Backup) → Bucket (Cell Backup)
  delete_all [] b = b
  delete_all (x ∷ xs) b = delete_all xs (delete x.id b)

  -- The end of the collection, once the world has done its part.
  collected :
      {W : Type 0}
      → List Backup
      → Bucket (Cell Backup)
      → W × Bool
      → (Bucket (Cell Backup) × W) × Result BackupError (List String)
  unfolding delete_all
  collected expired b (w, true) = ((b, w), err not_removed)
  collected expired b (w, false) =
      ((delete_all expired b, w), ok (map (λ (x : Backup). x.id) expired))

  collect :
      {W : Type 0}
      → (Backup → W → W × Bool)
      → ℕ
      → ℕ
      → Bucket (Cell Backup)
      → W
      → Result BackupError (List Backup)
      → (Bucket (Cell Backup) × W) × Result BackupError (List String)
  unfolding collected remove_all
  collect remove cutoff limit b w (err e) = ((b, w), err e)
  collect remove cutoff limit b w (ok items) =
      let expired = expired_backups cutoff limit [] items in
      collected expired b (remove_all remove expired w)

  -- Journal.GCBackups
  unfoldable pub gc_backups :
      {W : Type 0}
      → (Backup → W → W × Bool)
      → ℕ
      → ℤ
      → ℤ
      → Bucket (Cell Backup)
      → W
      → (Bucket (Cell Backup) × W) × Result BackupError (List String)
  unfolding collect
  gc_backups remove now days limit b w =
      if bad_retention days limit
      then ((b, w), err bad_limits)
      else collect remove (cutoff_of now days) (pos_part limit) b w (backups "" b)
