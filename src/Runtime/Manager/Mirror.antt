-- ===== src/Runtime/Manager/Mirror.antt =====
-- internal/runtime/manager.go: the Skill root after an Apply that succeeds.
use toolhub.Common.{
  ◌≤◌, String, Bool, false, not, none, some, List, ok, >>=-eq-ok, Result-cases, if-elim, ◌≡◌, refl,
  sym, ap, subst, ◌∙◌, ◌⊎◌, inl, inr, arith, ◌==◌,
}
use toolhub.Files.{Node}
use toolhub.Files.Node.{dir}
use toolhub.Bridge.Operation.{TargetResult}
use toolhub.Protocol.External.{External}
use toolhub.Protocol.Manifest.{DesiredManifest, SkillMember}
use toolhub.Protocol.Target.{runtime_shared_relay}
use toolhub.Runtime.{Artifact, Disk, InventoryMember}
use toolhub.Runtime.Extract.{find_entry}
use toolhub.Runtime.Paths.{ManagedUser, paths_for}
use toolhub.Runtime.Replace.{Step, backup_disk, replace_root}
use toolhub.Runtime.Stage.{extract_skill, stage_entries, stage_mode}
use toolhub.Runtime.Stage.Contents.{last_skill, kept, root_entries, stage_entries-find}
use toolhub.Runtime.Stage.Lookup.{times}
use toolhub.Runtime.Manager.{
  Calls, CommitRequest, Outcome, scan, mirror_stage, mirror_skill_root, stage_node, after_mirror,
  back_up_and_mirror, apply,
}
use toolhub.Runtime.Manager.Unwanted.{IsMirrored, slugs-member, kept-IsMirrored}
use toolhub.Runtime.Manager.Rollback.{IsStaged, replace_root-none, find_backup-back_up}
use toolhub.Skills.{Library}

module _ (lib : Library) (ext : External) (members_hash : List InventoryMember → String)
    (calls : Calls) where
  after_mirror-ok :
      (result : String → TargetResult) (step : Step) {r : TargetResult}
      → ((after_mirror lib ext members_hash calls result step).0) ≡ ok r
      → ((step.0) ≡ none)
        × (Disk.root ((after_mirror lib ext members_hash calls result step).1) ≡ Disk.root (step.1))
  unfolding after_mirror
  after_mirror-ok result (some e, disk) h = cc
  after_mirror-ok result (none, disk) h = (refl, refl)

  pub back_up_and_mirror-IsStaged :
      (preserve : Bool) (manifest : DesiredManifest) (artifacts : List Artifact) (message : String)
      (result : String → TargetResult) (disk : Disk) (r : TargetResult)
      → ((back_up_and_mirror lib ext members_hash preserve manifest artifacts calls message result
          disk).0)
        ≡ ok r
      → IsStaged lib ext preserve manifest.skills artifacts disk.root (
          Disk.root (
            (back_up_and_mirror lib ext members_hash preserve manifest artifacts calls message
              result disk).1))
  unfolding back_up_and_mirror mirror_skill_root mirror_stage stage_node
  back_up_and_mirror-IsStaged preserve manifest artifacts message result disk r h =
      elim (Result-cases (backup_disk calls.backup disk)) [
        | inl (failed, q) ↦ absurd (ground (arith, q, h))
        | inr (backed, q) ↦
            let (same, backup) = find_backup-back_up calls.backup disk q in
            let stage =
              mirror_stage lib ext members_hash preserve manifest.skills artifacts backed.root in
            let step = replace_root calls.change stage backed in
            let (done, kept) = after_mirror-ok result step (rw (q, back_up_and_mirror) at h) in
            let (node, staged, there) = replace_root-none calls.change stage backed done in
            let (entries, built, made) =
              >>=-eq-ok (stage_entries lib ext preserve manifest.skills artifacts backed.root)
                (stage_node backed.root) staged in
            let stood : node ≡ dir (stage_mode backed.root) entries = cc in
            rw (q, back_up_and_mirror)
              (subst
                (λ before.
                  IsStaged lib ext preserve manifest.skills artifacts before
                    (Disk.root ((after_mirror lib ext members_hash calls result step).1)))
                same (entries, built, kept ∙ (there ∙ ap some stood)))
      ]

  apply-IsStaged :
      (user : ManagedUser) (request : CommitRequest) (disk : Disk) (r : TargetResult)
      → ((apply lib ext members_hash calls user request disk).0) ≡ ok r
      → IsStaged lib ext false request.manifest.skills request.artifacts disk.root
          (Disk.root ((apply lib ext members_hash calls user request disk).1))
  unfolding apply
  apply-IsStaged user request disk r =
      let P : Outcome → Type 0 = λ o.
        (o.0) ≡ ok r
        → IsStaged lib ext false request.manifest.skills request.artifacts disk.root
            (Disk.root (o.1)) in
      if-elim P (request.target.runtime == runtime_shared_relay) (λ _ h. absurd (ground (arith, h)))
        λ _. elim (Result-cases (paths_for user request.target.runtime)) [
          | inl (e, q) ↦ rw q (λ h. absurd (ground (arith, h)))
          | inr (paths, q) ↦
              rw q (elim (Result-cases (scan lib ext members_hash calls.scan_before disk)) [
                | inl (e, s) ↦ rw s (λ h. absurd (ground (arith, h)))
                | inr (current, s) ↦ rw s (
                    if-elim P (not (current.revision == request.expected_revision))
                      (λ _ h. absurd (ground (arith, h)))
                      λ _.
                        back_up_and_mirror-IsStaged false request.manifest request.artifacts _ _
                          disk r)
              ])
        ]

  -- After an Apply that succeeds, the Skill root has, under each name that stood there at most once: the
  -- extracted Skill that the manifest wants last under it, whatever stood there, a protected entry too; or,
  -- under a name that no Skill wants, nothing where nothing stood, the copy of a file, of a link and of a
  -- directory of which the name is protected, nothing where a Skill package stood, and the copy of another
  -- directory, unless the copy is a Skill package, which goes too.
  pub apply-mirrors :
      (user : ManagedUser) (request : CommitRequest) (disk : Disk) (r : TargetResult) (k : String)
      → times k (root_entries disk.root) ≤ 1
      → ((apply lib ext members_hash calls user request disk).0) ≡ ok r
      → ((s : SkillMember) × (node : Node) × (last_skill k request.manifest.skills ≡ some s)
          × (extract_skill lib request.artifacts s ≡ ok node)
          × (find_entry k
                (root_entries (Disk.root ((apply lib ext members_hash calls user request disk).1)))
              ≡ some node))
        ⊎ ((last_skill k request.manifest.skills ≡ none)
            × IsMirrored lib ext k (find_entry k (root_entries disk.root)) (
                find_entry k (
                  root_entries
                    (Disk.root ((apply lib ext members_hash calls user request disk).1)))))
  apply-mirrors user request disk r k u h =
      let skills = request.manifest.skills in
      let (out, staged, there) = apply-IsStaged user request disk r h in
      let before = find_entry k (root_entries disk.root) in
      rw there
        (elim (stage_entries-find lib ext false skills request.artifacts disk.root k out u staged) [
          | inl wanted ↦ inl wanted
          | inr (absent, found) ↦ inr (
            absent,
            subst (λ o. IsMirrored lib ext k before o) (sym found)
                (kept-IsMirrored lib ext skills k before (slugs-member k skills absent)),
          )
        ])
