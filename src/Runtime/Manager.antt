-- ===== src/Runtime/Manager.antt =====
-- internal/runtime/manager.go: Apply, Reconcile, Restore and RemoveBackup, for the native runtimes.
pub mod Recovery
pub mod Rollback
pub mod Unwanted
pub mod Mirror
pub mod Repair
use toolhub.Common.{
  ℕ, String, Bool, true, false, not, ◌&&◌, ◌||◌, Option, none, some, List, [], ◌∷◌, Result, ok, err,
  ◌>>=◌, ◌==◌, if◌then◌else◌,
}
use toolhub.Files.{Node, Entries}
use toolhub.Files.Node.{dir}
use toolhub.Bridge.Operation.{TargetResult, operation_succeeded}
use toolhub.Protocol.Errors.{Error, api, plain, err_revision_conflict}
use toolhub.Protocol.External.{External}
use toolhub.Protocol.Manifest.{DesiredManifest, SkillMember}
use toolhub.Protocol.Target.{Target, runtime_shared_relay}
use toolhub.Runtime.{Artifact, Disk, InventoryMember, ScanResult, StageCalls}
use toolhub.Runtime.Inventory.{managed_drift, scan_skill_root}
use toolhub.Runtime.Paths.{ManagedUser, paths_for}
use toolhub.Runtime.Replace.{Step, BackupCalls, api_error, backup_disk, replace_root, restore_root}
use toolhub.Runtime.Stage.{stage_entries, stage_mode}
use toolhub.Skills.{Library}

-- bridgeprotocol.CommitRequest and ReconcileRequest, as far as Apply, Restore and Reconcile read them.
pub record CommitRequest : Type 0 where
  pub operation_id : String
  pub target : Target
  pub expected_revision : String
  pub manifest : DesiredManifest
  pub artifacts : List Artifact
  pub backup_id : String

pub record ReconcileRequest : Type 0 where
  pub operation_id : String
  pub target : Target
  pub manifest : DesiredManifest
  pub artifacts : List Artifact

-- How the system calls of one operation end. A scan before or after the change may fail too: os.Lstat,
-- os.ReadDir or entry.Info may.
pub record Calls : Type 0 where
  pub backup : BackupCalls
  pub change : StageCalls
  pub rollback : StageCalls
  pub scan_before : Option Error
  pub scan_after : Option Error

abbrev Outcome : Type 0
Outcome = Result Error TargetResult × Disk

abbrev health_healthy : String
health_healthy = "healthy"

abbrev target_result : String → String → Bool → Option DesiredManifest → TargetResult
target_result revision backup repaired manifest = record {
  status = operation_succeeded;
  health = health_healthy;
  target_revision = revision;
  backup_id = backup;
  repaired = repaired;
  manifest = manifest;
  relay = none;
  details = none;
  error = none;
}

-- The result of restoreRoot is not read where it rolls back.
unfoldable pub roll_back : Calls → Disk → Disk
roll_back calls disk = (restore_root calls.rollback calls.backup.id disk).1

-- The directory that becomes the root.
unfoldable pub stage_node : Option Node → Entries → Result Error Node
stage_node root entries = ok (dir (stage_mode root) entries)

module _ (lib : Library) (ext : External) (members_hash : List InventoryMember → String) where
  -- scanSkillRoot, with the error of its calls.
  unfoldable pub scan : Option Error → Disk → Result Error ScanResult
  scan (some e) disk = err e
  scan none disk = scan_skill_root lib ext members_hash disk.root

  -- The stage of mirrorSkillRoot. The scan of the staged root passes, since it is a directory; where a call
  -- of that scan fails, it is one of the failures of the writes.
  unfoldable pub mirror_stage :
      Bool → List SkillMember → List Artifact → Option Node → Result Error Node
  mirror_stage preserve skills artifacts root =
      stage_entries lib ext preserve skills artifacts root >>= stage_node root

  -- mirrorSkillRoot
  unfoldable pub mirror_skill_root :
      StageCalls → Bool → List SkillMember → List Artifact → Disk → Step
  mirror_skill_root calls preserve skills artifacts disk =
      replace_root calls (mirror_stage preserve skills artifacts disk.root) disk

  -- What Apply and Reconcile do once the backup is there.
  unfoldable pub after_mirror : Calls → (String → TargetResult) → Step → Outcome
  after_mirror calls result (some e, disk) = (err e, roll_back calls disk)
  after_mirror calls result (none, disk) =
      (scan calls.scan_after disk >>= λ after. ok (result after.revision), disk)

  module _ (preserve : Bool) (manifest : DesiredManifest) (artifacts : List Artifact) where
    -- The backup, the mirror and the answer, in which the revision is the new one.
    unfoldable pub back_up_and_mirror : Calls → String → (String → TargetResult) → Disk → Outcome
    back_up_and_mirror calls message result disk = elim (backup_disk calls.backup disk) [
      | err e ↦ (err (api_error "backup_failed" message), disk)
      | ok backed ↦
          after_mirror calls result
            (mirror_skill_root calls.change preserve manifest.skills artifacts backed)
    ]

  -- Apply
  unfoldable pub apply : Calls → ManagedUser → CommitRequest → Disk → Outcome
  apply calls user request disk =
      if request.target.runtime == runtime_shared_relay
      then (err (plain "shared relay Apply is handled by the relay manager"), disk)
      else elim (paths_for user request.target.runtime) [
        | err e ↦ (err e, disk)
        | ok paths ↦ elim (scan calls.scan_before disk) [
          | err e ↦ (err e, disk)
          | ok current ↦
              if not (current.revision == request.expected_revision)
              then (err (api_error err_revision_conflict "Target changed after preflight"), disk)
              else back_up_and_mirror false request.manifest request.artifacts calls
                  "Could not back up target before Apply"
                  (λ revision. target_result revision calls.backup.id false (some request.manifest))
                  disk
        ]
      ]

  -- Reconcile
  unfoldable pub reconcile : Calls → ManagedUser → ReconcileRequest → Disk → Outcome
  reconcile calls user request disk =
      if request.target.runtime == runtime_shared_relay
      then (err (plain "shared relay reconcile is handled by the relay manager"), disk)
      else elim (paths_for user request.target.runtime) [
        | err e ↦ (err e, disk)
        | ok paths ↦ elim (scan calls.scan_before disk) [
          | err e ↦ (err e, disk)
          | ok current ↦
              if not (managed_drift current.members request.manifest.skills)
              then (ok (target_result current.revision "" false none), disk)
              else back_up_and_mirror true request.manifest request.artifacts calls
                  "Could not back up target before repair"
                  (λ revision. target_result revision calls.backup.id true none) disk
        ]
      ]

  -- The checks of Restore on the directory that it has put in place.
  after_restore : Calls → CommitRequest → Disk → Outcome
  after_restore calls request disk = elim (scan calls.scan_after disk) [
    | err e ↦ (err e, roll_back calls disk)
    | ok after ↦
        if managed_drift after.members request.manifest.skills
        then (
          err (api_error "backup_failed" "Restored Skills do not match the pinned backup manifest"),
          roll_back calls disk,
        )
        else (ok (target_result after.revision calls.backup.id false (some request.manifest)), disk)
  ]

  restore_backup : Calls → CommitRequest → Disk → Outcome
  unfolding after_restore
  restore_backup calls request disk = elim (backup_disk calls.backup disk) [
    | err e ↦ (err e, disk)
    | ok backed ↦
        let (failed, disk') = restore_root calls.change request.backup_id backed in
        elim failed [ some e ↦ (err e, disk') | none ↦ after_restore calls request disk' ]
  ]

  -- Restore
  unfoldable pub restore : Calls → ManagedUser → CommitRequest → Disk → Outcome
  unfolding restore_backup
  restore calls user request disk = elim (paths_for user request.target.runtime) [
    | err e ↦ (err e, disk)
    | ok paths ↦ elim (scan calls.scan_before disk) [
      | err e ↦ (err e, disk)
      | ok current ↦
          if not (request.expected_revision == "")
            && not (current.revision == request.expected_revision)
          then (err (api_error err_revision_conflict "Target changed before restore"), disk)
          else restore_backup calls request disk
    ]
  ]
