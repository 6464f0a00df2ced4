-- ===== src/Runtime/Stage.antt =====
-- internal/runtime/manager.go: the new Skill root that mirrorSkillRoot builds, with copyRootForStage.
pub mod Lookup
pub mod Contents
use toolhub.Common.{
  ℕ, String, Bool, true, false, ◌||◌, Option, none, some, List, [], ◌∷◌, map, member, Result, ok,
  err, ◌>>=◌, ◌==◌, if◌then◌else◌,
}
use toolhub.Files.{Node, Entries, perm}
use toolhub.Files.Node.{dir}
use toolhub.Files.Entries.{none_left, entry}
use toolhub.Protocol.Errors.{Error, plain}
use toolhub.Protocol.External.{External}
use toolhub.Protocol.Manifest.{SkillMember}
use toolhub.Protocol.Target.{is_protected_skill_entry}
use toolhub.Runtime.{Artifact, InventoryMember}
use toolhub.Runtime.Copy.{Copied, copy_tree}
use toolhub.Runtime.Extract.{extract_skill_artifact, insert_entry, remove_entry}
use toolhub.Runtime.Inventory.{inspect_skill_entry}
use toolhub.Skills.{Library}

abbrev pub slugs : List SkillMember → List String
slugs = map (λ s. s.slug)

-- The map of the artifacts by their versions: a later one replaces.
unfoldable pub find_artifact : String → List Artifact → Option Artifact
find_artifact version [] = none
find_artifact version (a ∷ as') = elim (find_artifact version as') [
  | some found ↦ some found
  | none ↦ if a.version_id == version then some a else none
]

unfoldable pub artifact_for : SkillMember → List Artifact → Result Error Artifact
artifact_for skill artifacts = elim (find_artifact skill.version_id artifacts) [
  | none ↦ err (plain "artifact is missing or mismatched")
  | some a ↦
      if a.sha256 == skill.sha256 then ok a else err (plain "artifact is missing or mismatched")
]

unfoldable pub staged_entry : String → Node → Entries → Result Error Entries
staged_entry name copy below = ok (entry name copy below)

module _ (lib : Library) (ext : External) (preserve : Bool) where
  -- What copyRootForStage copies.
  unfoldable pub is_copied : String → Node → Bool
  is_copied name node =
      preserve || InventoryMember.protected (inspect_skill_entry lib ext name node)

  -- copyRootForStage
  unfoldable pub copy_root_for_stage : Entries → Copied → Result Error Entries
  copy_root_for_stage none_left c = ok none_left
  copy_root_for_stage (entry name node rest) c = elim (is_copied name node) [
    | true ↦
        copy_tree node c >>= λ (copy, c'). copy_root_for_stage rest c' >>= staged_entry name copy
    | false ↦ copy_root_for_stage rest c
  ]

  -- The stage before the desired Skills. The callers have scanned the root: it is a directory or absent.
  unfoldable pub start_stage : Option Node → Result Error Entries
  start_stage none = ok none_left
  start_stage (some (dir mode entries)) =
      copy_root_for_stage entries (record { files = 0; bytes = 0 })
  start_stage (some _) = err (plain "read directory")

  -- What the last loop leaves in the stage.
  unfoldable pub is_left : List String → String → Node → Bool
  is_left desired name node =
      preserve
      || is_protected_skill_entry ext name
      || member name desired
      || InventoryMember.protected (inspect_skill_entry lib ext name node)

  unfoldable pub remove_unmanaged : List String → Entries → Entries
  remove_unmanaged desired none_left = none_left
  remove_unmanaged desired (entry name node rest) =
      let below = remove_unmanaged desired rest in
      if is_left desired name node then entry name node below else below

module _ (lib : Library) (artifacts : List Artifact) where
  unfoldable pub extract_skill : SkillMember → Result Error Node
  extract_skill skill = artifact_for skill artifacts >>= extract_skill_artifact lib

  -- The loop over the desired Skills.
  unfoldable pub put_skills : List SkillMember → Entries → Result Error Entries
  put_skills [] entries = ok entries
  put_skills (skill ∷ skills) entries = extract_skill skill >>= λ node.
      put_skills skills (insert_entry skill.slug node (remove_entry skill.slug entries))

unfoldable pub stage_mode : Option Node → ℕ
stage_mode (some (dir mode entries)) = perm mode
stage_mode _ = 493

module _ (lib : Library) (ext : External) (preserve : Bool) (skills : List SkillMember) where
  unfoldable pub pruned : Entries → Result Error Entries
  pruned full = ok (remove_unmanaged lib ext preserve (slugs skills) full)

  module _ (artifacts : List Artifact) where
    unfoldable pub filled : Entries → Result Error Entries
    filled start = put_skills lib artifacts skills start >>= pruned

    -- The entries of the stage.
    unfoldable pub stage_entries : Option Node → Result Error Entries
    stage_entries root = start_stage lib ext preserve root >>= filled
