-- ===== src/Runtime/Manager/Recovery.antt =====
-- internal/runtime/manager.go: what Apply, Reconcile and Restore leave of the Skill root.
use toolhub.Common.{
  String, Bool, false, none, some, List, ◌∷◌, Result, ok, Result-cases, if-elim, not, ◌≡◌, refl, ap,
  ◌∙◌, ◌⊎◌, inl, inr, arith, ◌==◌, eq_iff,
}
use toolhub.Files.{Node}
use toolhub.Bridge.Operation.{TargetResult}
use toolhub.Protocol.Errors.{Error}
use toolhub.Protocol.External.{External}
use toolhub.Protocol.Manifest.{DesiredManifest}
use toolhub.Protocol.Target.{runtime_shared_relay}
use toolhub.Runtime.{Artifact, Disk, InventoryMember, StageCalls, ReplaceCalls}
use toolhub.Runtime.Paths.{ManagedUser, paths_for}
use toolhub.Runtime.Replace.{
  Step, BackupCalls, is_there, set_aside, fail_stage, finish, atomic_replace_directory,
  replace_root, backup_node, backup_disk, find_backup, restore_root,
}
use toolhub.Runtime.Manager.{
  Calls, CommitRequest, Outcome, roll_back, scan, mirror_stage, mirror_skill_root, after_mirror,
  back_up_and_mirror, apply,
}
use toolhub.Skills.{Library}

-- Moving directories leaves the backups alone.
atomic_replace_directory-backups :
    (calls : ReplaceCalls) (stage : Node) (disk : Disk)
    → Disk.backups ((atomic_replace_directory calls stage disk).1) ≡ disk.backups
unfolding atomic_replace_directory fail_stage finish set_aside is_there
atomic_replace_directory-backups calls stage disk = ground arith

pub replace_root-backups :
    (calls : StageCalls) (stage : Result Error Node) (disk : Disk)
    → Disk.backups ((replace_root calls stage disk).1) ≡ disk.backups
unfolding replace_root
replace_root-backups calls stage disk = elim (Result-cases stage) [
  | inl (e, q) ↦ ground (arith, q)
  | inr (n, q) ↦ ground (arith, q, atomic_replace_directory-backups calls.replace n disk)
]

pub backup_disk-ok :
    (calls : BackupCalls) (disk : Disk) {backed : Disk}
    → backup_disk calls disk ≡ ok backed
    → (b : Node) × (backup_node disk.root ≡ ok b)
      × (backed ≡ record disk { backups = (calls.id, b) ∷ disk.backups })
unfolding backup_disk
backup_disk-ok calls disk h = elim (Result-cases (backup_node disk.root)) [
  | inl (e, q) ↦ absurd (ground (arith, q, h))
  | inr (b, q) ↦ (b, q, ground (arith, q, h))
]

-- The root is as it was, or the backup of it is there.
abbrev pub IsRecoverable : String → Disk → Disk → Type 0
IsRecoverable id before after =
    (after.root ≡ before.root)
    ⊎ ((b : Node) × (backup_node before.root ≡ ok b) × (find_backup id after.backups ≡ some b))

IsRecoverable-same :
    (id : String) (disk : Disk) {after : Disk} → after ≡ disk → IsRecoverable id disk after
IsRecoverable-same id disk h = inl (ap (λ (d : Disk). d.root) h)

pub find_backup-first :
    (id : String) (b : Node) (bs : List (String × Node)) → find_backup id ((id, b) ∷ bs) ≡ some b
unfolding find_backup
find_backup-first id b bs = ground (arith, eq_iff id id)

module _ (lib : Library) (ext : External) (members_hash : List InventoryMember → String)
    (calls : Calls) where
  after_mirror-backups :
      (result : String → TargetResult) (step : Step)
      → Disk.backups ((after_mirror lib ext members_hash calls result step).1)
        ≡ Disk.backups (step.1)
  unfolding after_mirror roll_back restore_root
  after_mirror-backups result (some e, disk) = replace_root-backups calls.rollback _ disk
  after_mirror-backups result (none, disk) = refl

  back_up_and_mirror-IsRecoverable :
      (preserve : Bool) (manifest : DesiredManifest) (artifacts : List Artifact) (message : String)
      (result : String → TargetResult) (disk : Disk)
      → IsRecoverable calls.backup.id disk (
          (back_up_and_mirror lib ext members_hash preserve manifest artifacts calls message result
            disk).1)
  unfolding back_up_and_mirror mirror_skill_root
  back_up_and_mirror-IsRecoverable preserve manifest artifacts message result disk =
      elim (Result-cases (backup_disk calls.backup disk)) [
        | inl (e, q) ↦ inl (ground (arith, q))
        | inr (backed, q) ↦
            let (b, held, same) = backup_disk-ok calls.backup disk q in
            let stage =
              mirror_stage lib ext members_hash preserve manifest.skills artifacts backed.root in
            let step = replace_root calls.change stage backed in
            rw (q, back_up_and_mirror)
              (inr (
                b,
                held,
                ap (find_backup calls.backup.id) (
                      after_mirror-backups result step
                      ∙ (replace_root-backups calls.change stage backed
                          ∙ ap (λ (d : Disk). d.backups) same))
                    ∙ find_backup-first calls.backup.id b disk.backups,
              ))
      ]

  -- After every Apply, whichever of its calls fail, the root is as it was before, or its backup is there
  -- under the identifier of this Apply.
  pub apply-IsRecoverable :
      (user : ManagedUser) (request : CommitRequest) (disk : Disk)
      → IsRecoverable calls.backup.id disk ((apply lib ext members_hash calls user request disk).1)
  unfolding apply
  apply-IsRecoverable user request disk =
      let P : Outcome → Type 0 = λ o. IsRecoverable calls.backup.id disk (o.1) in
      if-elim P (request.target.runtime == runtime_shared_relay) (λ _. inl refl)
        λ _. elim (Result-cases (paths_for user request.target.runtime)) [
          | inl (e, q) ↦ rw q (inl refl)
          | inr (paths, q) ↦
              rw q (elim (Result-cases (scan lib ext members_hash calls.scan_before disk)) [
                | inl (e, r) ↦ rw r (inl refl)
                | inr (current, r) ↦ rw r (
                    if-elim P (not (current.revision == request.expected_revision)) (λ _. inl refl)
                      λ _.
                        back_up_and_mirror-IsRecoverable false request.manifest request.artifacts _
                          _ disk)
              ])
        ]
