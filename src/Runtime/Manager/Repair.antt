-- ===== src/Runtime/Manager/Repair.antt =====
-- internal/runtime/manager.go: what Reconcile leaves of the entries that no Skill wants.
use toolhub.Common.{
  ◌≤◌, String, true, not, Option, none, some, List, ok, Result-cases, if-elim, ◌≡◌, refl, ap, ◌∙◌,
  ◌⊎◌, inl, inr, arith, ◌==◌,
}
use toolhub.Files.{Node}
use toolhub.Bridge.Operation.{TargetResult}
use toolhub.Protocol.External.{External}
use toolhub.Protocol.Manifest.{SkillMember}
use toolhub.Protocol.Target.{runtime_shared_relay}
use toolhub.Runtime.{Disk, InventoryMember}
use toolhub.Runtime.Copy.Faithful.{copied}
use toolhub.Runtime.Extract.{find_entry}
use toolhub.Runtime.Inventory.{managed_drift}
use toolhub.Runtime.Paths.{ManagedUser, paths_for}
use toolhub.Runtime.Stage.{is_copied, is_left}
use toolhub.Runtime.Stage.Contents.{last_skill, kept, remains, root_entries, stage_entries-find}
use toolhub.Runtime.Stage.Lookup.{times}
use toolhub.Runtime.Manager.{Calls, ReconcileRequest, Outcome, scan, reconcile}
use toolhub.Runtime.Manager.Rollback.{IsStaged}
use toolhub.Runtime.Manager.Mirror.{back_up_and_mirror-IsStaged}
use toolhub.Skills.{Library}

module _ (lib : Library) (ext : External) (members_hash : List InventoryMember → String)
    (calls : Calls) where
  -- The root is as it was, or it holds the stage that keeps every entry.
  reconcile-IsStaged :
      (user : ManagedUser) (request : ReconcileRequest) (disk : Disk) (r : TargetResult)
      → ((reconcile lib ext members_hash calls user request disk).0) ≡ ok r
      → (Disk.root ((reconcile lib ext members_hash calls user request disk).1) ≡ disk.root)
        ⊎ IsStaged lib ext true request.manifest.skills request.artifacts disk.root
            (Disk.root ((reconcile lib ext members_hash calls user request disk).1))
  unfolding reconcile
  reconcile-IsStaged user request disk r =
      let P : Outcome → Type 0 = λ o.
        (o.0) ≡ ok r
        → (Disk.root (o.1) ≡ disk.root)
          ⊎ IsStaged lib ext true request.manifest.skills request.artifacts disk.root
              (Disk.root (o.1)) in
      if-elim P (request.target.runtime == runtime_shared_relay) (λ _ _. inl refl)
        λ _. elim (Result-cases (paths_for user request.target.runtime)) [
          | inl (e, q) ↦ rw q (λ _. inl refl)
          | inr (paths, q) ↦
              rw q (elim (Result-cases (scan lib ext members_hash calls.scan_before disk)) [
                | inl (e, s) ↦ rw s (λ _. inl refl)
                | inr (current, s) ↦ rw s (
                    if-elim P (not (managed_drift current.members request.manifest.skills))
                      (λ _ _. inl refl)
                      λ _ h. inr (
                        back_up_and_mirror-IsStaged lib ext members_hash calls true request.manifest
                          request.artifacts _ _ disk r h))
              ])
        ]

  keeps-all :
      (skills : List SkillMember) (k : String) (o : Option Node)
      → kept (remains lib ext true skills k) copied o ≡ kept (λ _. true) copied o
  unfolding remains is_copied is_left
  keeps-all skills k none = refl
  keeps-all skills k (some n) = refl

  -- A Reconcile that succeeds leaves the Skill root as it was, or has, under each name that no Skill wants
  -- and that stood there at most once, the copy of what stood there.
  pub reconcile-keeps :
      (user : ManagedUser) (request : ReconcileRequest) (disk : Disk) (r : TargetResult)
      (k : String)
      → times k (root_entries disk.root) ≤ 1
      → last_skill k request.manifest.skills ≡ none
      → ((reconcile lib ext members_hash calls user request disk).0) ≡ ok r
      → (Disk.root ((reconcile lib ext members_hash calls user request disk).1) ≡ disk.root)
        ⊎ (find_entry k (
              root_entries (Disk.root ((reconcile lib ext members_hash calls user request disk).1)))
            ≡ kept (λ _. true) copied (find_entry k (root_entries disk.root)))
  reconcile-keeps user request disk r k u unwanted h =
      elim (reconcile-IsStaged user request disk r h) [
        | inl same ↦ inl same
        | inr (out, staged, there) ↦
            elim (stage_entries-find lib ext true request.manifest.skills request.artifacts
              disk.root k out u staged) [
                | inl (s, node, last, got, held) ↦ absurd (ground (arith, last, unwanted))
                | inr (absent, found) ↦ inr (
                    ap (λ root. find_entry k (root_entries root)) there
                    ∙ (found
                        ∙ keeps-all request.manifest.skills k
                            (find_entry k (root_entries disk.root))))
              ]
      ]
