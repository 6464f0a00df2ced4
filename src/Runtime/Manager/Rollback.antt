-- ===== src/Runtime/Manager/Rollback.antt =====
-- internal/runtime/manager.go: backupRoot, then restoreRoot, and the root after a failed Apply.
use toolhub.Common.{
  ℕ, String, Bool, true, false, not, none, some, List, Result, ok, err, >>=-eq-ok, Result-cases,
  if-elim, Option, ◌⊎◌, ◌≡◌, refl, sym, ap, subst, ◌∙◌, inl, inr, arith, ◌==◌,
}
use toolhub.Files.{Node, Entries, perm}
use toolhub.Files.Node.{dir}
use toolhub.Bridge.Operation.{TargetResult}
use toolhub.Protocol.Errors.{Error}
use toolhub.Protocol.External.{External}
use toolhub.Protocol.Manifest.{DesiredManifest, SkillMember}
use toolhub.Protocol.Target.{runtime_shared_relay}
use toolhub.Runtime.{Artifact, Disk, InventoryMember, StageCalls, ReplaceCalls}
use toolhub.Runtime.Copy.{copy_entries}
use toolhub.Runtime.Copy.Faithful.{IsWhole, copied, copy_entries-carries, copied_entries-AreWhole}
use toolhub.Runtime.Inventory.{scan_skill_root}
use toolhub.Runtime.Paths.{ManagedUser, paths_for}
use toolhub.Runtime.Replace.{
  Step, BackupCalls, fail_stage, finish, atomic_replace_directory, replace_root, backup_node,
  backup_disk, find_backup, restore_root, restored_node, copied_root, nothing_copied, copy_dir,
}
use toolhub.Runtime.Manager.{
  Calls, CommitRequest, Outcome, roll_back, scan, mirror_stage, mirror_skill_root, after_mirror,
  stage_node, back_up_and_mirror, apply,
}
use toolhub.Runtime.Manager.Recovery.{backup_disk-ok, find_backup-first, replace_root-backups}
use toolhub.Runtime.Stage.{stage_entries, stage_mode}
use toolhub.Skills.{Library}

-- A copy of a directory that copies keep whole is that directory.
copy_dir-IsWhole :
    (mode : ℕ) (entries : Entries) {b : Node}
    → IsWhole (dir mode entries)
    → copy_dir mode entries ≡ ok b
    → b ≡ dir mode entries
unfolding copy_dir copied_root IsWhole
copy_dir-IsWhole mode entries (small, below) h =
    let ((es, c), copied, done) =
      >>=-eq-ok (copy_entries entries nothing_copied) (copied_root mode) h in
    let (same, counted) =
      copy_entries-carries entries nothing_copied (omega arith, omega arith) copied in
    let whole = copied_entries-AreWhole entries below in
    let kept : perm mode ≡ mode = omega arith in ground (arith, done, same, whole, kept)

-- The backup of a directory that copies keep whole is restored, with no error, to that directory.
pub restored_node-backup_node :
    (mode : ℕ) (entries : Entries) (b : Node)
    → IsWhole (dir mode entries)
    → backup_node (some (dir mode entries)) ≡ ok b
    → restored_node (some b) ≡ ok (dir mode entries)
unfolding backup_node restored_node
restored_node-backup_node mode entries b w h =
    let same = copy_dir-IsWhole mode entries w h in
    rw same (subst (λ n. copy_dir mode entries ≡ ok n) same h)

-- A replacement of which the calls succeed.
abbrev IsSuccess : StageCalls → Type 0
IsSuccess calls =
    (calls.prepare ≡ none)
    × (calls.writes ≡ none)
    × (calls.replace.moves_target ≡ true)
    × (calls.replace.moves_stage ≡ true)

atomic_replace_directory-root :
    (calls : ReplaceCalls) (stage : Node) (disk : Disk)
    → calls.moves_target ≡ true
    → calls.moves_stage ≡ true
    → Disk.root ((atomic_replace_directory calls stage disk).1) ≡ some stage
unfolding atomic_replace_directory finish
atomic_replace_directory-root calls stage disk h k = ground arith

replace_root-root :
    (calls : StageCalls) (node : Node) (disk : Disk)
    → IsSuccess calls
    → Disk.root ((replace_root calls (ok node) disk).1) ≡ some node
unfolding replace_root
replace_root-root calls node disk (p, w, t, s) =
    ground (arith, p, w, atomic_replace_directory-root calls.replace node disk t s)

-- A replacement that succeeds has put the stage in place.
atomic_replace_directory-none :
    (calls : ReplaceCalls) (stage : Node) (disk : Disk)
    → ((atomic_replace_directory calls stage disk).0) ≡ none
    → Disk.root ((atomic_replace_directory calls stage disk).1) ≡ some stage
unfolding atomic_replace_directory finish fail_stage
atomic_replace_directory-none calls stage disk h = ground arith

pub replace_root-none :
    (calls : StageCalls) (stage : Result Error Node) (disk : Disk)
    → ((replace_root calls stage disk).0) ≡ none
    → (node : Node) × (stage ≡ ok node)
      × (Disk.root ((replace_root calls stage disk).1) ≡ some node)
unfolding replace_root
replace_root-none calls stage disk h = elim (Result-cases stage) [
  | inl (e, q) ↦ absurd (ground (arith, q, h))
  | inr (n, q) ↦ (n, q, ground (arith, q, h, atomic_replace_directory-none calls.replace n disk))
]

pub find_backup-back_up :
    (calls : BackupCalls) (disk : Disk) {backed : Disk}
    → backup_disk calls disk ≡ ok backed
    → (backed.root ≡ disk.root)
      × ((b : Node) × (backup_node disk.root ≡ ok b)
          × (find_backup calls.id backed.backups ≡ some b))
find_backup-back_up calls disk h =
    let (b, held, same) = backup_disk-ok calls disk h in
    (
      ap (λ (d : Disk). d.root) same,
      (
        b,
        held,
        ap (λ (d : Disk). find_backup calls.id d.backups) same
            ∙ find_backup-first calls.id b disk.backups,
      ),
    )

-- A rollback of which the calls succeed puts the root back.
roll_back-root :
    (calls : Calls) (mode : ℕ) (entries : Entries) (b : Node) (disk : Disk)
    → IsSuccess calls.rollback
    → IsWhole (dir mode entries)
    → backup_node (some (dir mode entries)) ≡ ok b
    → find_backup calls.backup.id disk.backups ≡ some b
    → Disk.root (roll_back calls disk) ≡ some (dir mode entries)
unfolding roll_back restore_root
roll_back-root calls mode entries b disk s w held found =
    let stage = ap restored_node found ∙ restored_node-backup_node mode entries b w held in
    subst (λ r. Disk.root ((replace_root calls.rollback r disk).1) ≡ some (dir mode entries))
      (sym stage) (replace_root-root calls.rollback (dir mode entries) disk s)

-- A root that holds the stage of what stood before.
abbrev pub IsStaged :
    Library
    → External
    → Bool
    → List SkillMember
    → List Artifact
    → Option Node
    → Option Node
    → Type 0
IsStaged lib ext preserve skills artifacts before after =
    (out : Entries) × (stage_entries lib ext preserve skills artifacts before ≡ ok out)
    × (after ≡ some (dir (stage_mode before) out))

module _ (lib : Library) (ext : External) (members_hash : List InventoryMember → String)
    (calls : Calls) where
  mirror_skill_root-IsStaged :
      (preserve : Bool) (skills : List SkillMember) (artifacts : List Artifact) (disk : Disk)
      → let step =
          mirror_skill_root lib ext members_hash calls.change preserve skills artifacts disk in
        (step.0) ≡ none → IsStaged lib ext preserve skills artifacts disk.root (Disk.root (step.1))
  unfolding mirror_skill_root mirror_stage stage_node
  mirror_skill_root-IsStaged preserve skills artifacts disk h =
      let stage = mirror_stage lib ext members_hash preserve skills artifacts disk.root in
      let (node, staged, there) = replace_root-none calls.change stage disk h in
      let (entries, built, same) =
        >>=-eq-ok (stage_entries lib ext preserve skills artifacts disk.root) (stage_node disk.root)
          staged in
      (entries, built, there ∙ ap some (cc))

  -- A scan of a directory fails only where one of its calls does.
  scan-err :
      (o : Option Error) (disk : Disk) (mode : ℕ) (entries : Entries) {e : Error}
      → disk.root ≡ some (dir mode entries)
      → scan lib ext members_hash o disk ≡ err e
      → o ≡ some e
  unfolding scan scan_skill_root
  scan-err (some f) disk mode entries there h = cc
  scan-err none disk mode entries there h =
      absurd (ground (arith, h, ap (scan_skill_root lib ext members_hash) there))

  module _ (mode : ℕ) (entries : Entries) (succeeds : IsSuccess calls.rollback)
      (whole : IsWhole (dir mode entries)) where
    -- The directory is back at the root; or the scan after the change failed, and the new root stays.
    abbrev IsOldOrNew :
        Bool → DesiredManifest → List Artifact → Error → Option Node → Option Node → Type 0
    IsOldOrNew preserve manifest artifacts e before after =
        (after ≡ some (dir mode entries))
        ⊎ ((calls.scan_after ≡ some e)
            × IsStaged lib ext preserve manifest.skills artifacts before after)

    after_mirror-err :
        (preserve : Bool) (manifest : DesiredManifest) (artifacts : List Artifact)
        (before : Option Node) (result : String → TargetResult) (step : Step) (b : Node) {e : Error}
        → backup_node (some (dir mode entries)) ≡ ok b
        → find_backup calls.backup.id (Disk.backups (step.1)) ≡ some b
        → ((step.0) ≡ none
            → IsStaged lib ext preserve manifest.skills artifacts before (Disk.root (step.1)))
        → ((after_mirror lib ext members_hash calls result step).0) ≡ err e
        → IsOldOrNew preserve manifest artifacts e before
            (Disk.root ((after_mirror lib ext members_hash calls result step).1))
    unfolding after_mirror
    after_mirror-err _ _ _ _ result (some failed, disk) b held found placed h =
        inl (roll_back-root calls mode entries b disk succeeds whole held found)
    after_mirror-err _ _ _ _ result (none, disk) b {e} held found placed h =
        let (out, built, there) = placed refl in
        elim (Result-cases (scan lib ext members_hash calls.scan_after disk)) [
          | inr (r, q) ↦ absurd (ground (arith, q, h))
          | inl (f, q) ↦
              let same : f ≡ e = ground (arith, q, h) in
              inr (
                subst (λ g. calls.scan_after ≡ some g) same
                    (scan-err calls.scan_after disk _ out there q),
                (out, built, there),
              )
        ]

    back_up_and_mirror-err :
        (preserve : Bool) (manifest : DesiredManifest) (artifacts : List Artifact)
        (message : String) (result : String → TargetResult) (disk : Disk) (e : Error)
        → disk.root ≡ some (dir mode entries)
        → ((back_up_and_mirror lib ext members_hash preserve manifest artifacts calls message result
            disk).0)
          ≡ err e
        → IsOldOrNew preserve manifest artifacts e disk.root (
            Disk.root (
              (back_up_and_mirror lib ext members_hash preserve manifest artifacts calls message
                result disk).1))
    unfolding back_up_and_mirror mirror_skill_root
    back_up_and_mirror-err preserve manifest artifacts message result disk e root h =
        elim (Result-cases (backup_disk calls.backup disk)) [
          | inl (failed, q) ↦ rw (q, back_up_and_mirror) (inl root)
          | inr (backed, q) ↦
              let (same, (b, held, found)) = find_backup-back_up calls.backup disk q in
              let step =
                mirror_skill_root lib ext members_hash calls.change preserve manifest.skills
                  artifacts backed in
              rw (q, back_up_and_mirror)
                (subst
                  (λ o.
                    IsOldOrNew preserve manifest artifacts e o
                      (Disk.root ((after_mirror lib ext members_hash calls result step).1)))
                  same
                  (after_mirror-err preserve manifest artifacts backed.root result step b
                    (subst (λ r. backup_node r ≡ ok b) root held)
                    (ap (find_backup calls.backup.id) (
                        replace_root-backups calls.change
                          (mirror_stage lib ext members_hash preserve manifest.skills artifacts
                            backed.root)
                          backed)
                      ∙ found)
                    (mirror_skill_root-IsStaged preserve manifest.skills artifacts backed)
                    (rw (q, back_up_and_mirror) at h)))
        ]

    -- An Apply that fails leaves the Skill root as it was, where the root is a directory that copies keep
    -- whole and the calls of the rollback succeed; or its error is that of the scan after the change, which
    -- is not rolled back, and the root is the new one: the stage of what stood before. The calls of the
    -- Apply and of its scans may fail in any way.
    pub apply-err :
        (user : ManagedUser) (request : CommitRequest) (disk : Disk) (e : Error)
        → disk.root ≡ some (dir mode entries)
        → ((apply lib ext members_hash calls user request disk).0) ≡ err e
        → (Disk.root ((apply lib ext members_hash calls user request disk).1)
            ≡ some (dir mode entries))
          ⊎ ((calls.scan_after ≡ some e)
              × IsStaged lib ext false request.manifest.skills request.artifacts disk.root
                  (Disk.root ((apply lib ext members_hash calls user request disk).1)))
    unfolding apply
    apply-err user request disk e root =
        let P : Outcome → Type 0 = λ o.
          (o.0) ≡ err e
          → IsOldOrNew false request.manifest request.artifacts e disk.root (Disk.root (o.1)) in
        if-elim P (request.target.runtime == runtime_shared_relay) (λ _ _. inl root)
          λ _. elim (Result-cases (paths_for user request.target.runtime)) [
            | inl (e, q) ↦ rw q (λ _. inl root)
            | inr (paths, q) ↦
                rw q (elim (Result-cases (scan lib ext members_hash calls.scan_before disk)) [
                  | inl (e, r) ↦ rw r (λ _. inl root)
                  | inr (current, r) ↦ rw r (
                      if-elim P (not (current.revision == request.expected_revision))
                        (λ _ _. inl root)
                        λ _.
                          back_up_and_mirror-err false request.manifest request.artifacts _ _ disk e
                            root)
                ])
          ]
