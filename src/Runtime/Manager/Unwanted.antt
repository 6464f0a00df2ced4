-- ===== src/Runtime/Manager/Unwanted.antt =====
-- internal/runtime/manager.go: what becomes of an entry that no Skill of the manifest wants, described
-- apart from the code of the stage.
use toolhub.Common.{
  String, true, false, Option, none, some, List, [], ◌∷◌, member, ok, err, Bool-cases, Option-cases,
  Result-cases, ◌≡◌, refl, ◌⊎◌, inl, inr, arith,
}
use toolhub.Files.{Node}
use toolhub.Files.Node.{file, link, special, dir, closed}
use toolhub.Protocol.External.{External}
use toolhub.Protocol.Manifest.{SkillMember}
use toolhub.Protocol.Target.{is_protected_skill_entry}
use toolhub.Runtime.Copy.Faithful.{copied}
use toolhub.Runtime.Inventory.{inspect_skill_entry, inspect_dir}
use toolhub.Runtime.Stage.{slugs, is_copied, is_left}
use toolhub.Runtime.Stage.Contents.{last_skill, kept, remains}
use toolhub.Skills.{Library, Package, SkillError, default_limits}
use toolhub.Skills.Directory.{scan_directory}

-- A directory is copied if its name is protected; else it goes if it is a Skill package, and if its copy
-- is one.
abbrev IsMirroredDir : Library → External → String → Node → Option Node → Type 0
IsMirroredDir lib ext k node after =
    ((is_protected_skill_entry ext k ≡ true) × (after ≡ some (copied node)))
    ⊎ ((is_protected_skill_entry ext k ≡ false)
        × (((p : Package) × (scan_directory lib default_limits node ≡ ok p) × (after ≡ none))
            ⊎ ((e : SkillError) × (scan_directory lib default_limits node ≡ err e)
                × (((p : Package) × (scan_directory lib default_limits (copied node) ≡ ok p)
                      × (after ≡ none))
                    ⊎ ((f : SkillError) × (scan_directory lib default_limits (copied node) ≡ err f)
                        × (after ≡ some (copied node)))))))

-- What stands under a name that no Skill wants, by what stood there.
abbrev pub IsMirrored : Library → External → String → Option Node → Option Node → Type 0
IsMirrored lib ext k none after = after ≡ none
IsMirrored lib ext k (some (file mode size content)) after =
    after ≡ some (copied (file mode size content))
IsMirrored lib ext k (some (link to)) after = after ≡ some (link to)
IsMirrored lib ext k (some (special mode content)) after = after ≡ some (special mode content)
IsMirrored lib ext k (some (dir mode entries)) after =
    IsMirroredDir lib ext k (dir mode entries) after
IsMirrored lib ext k (some (closed mode)) after = IsMirroredDir lib ext k (closed mode) after

pub slugs-member :
    (k : String) (skills : List SkillMember)
    → last_skill k skills ≡ none
    → member k (slugs skills) ≡ false
slugs-member k [] h = refl
slugs-member k (s ∷ ss) h = elim (Option-cases (last_skill k ss)) [
  | inl e ↦ ground (arith, e, h, slugs-member k ss e)
  | inr (t, e) ↦ absurd (ground (arith, e, h))
]

module _ (lib : Library) (ext : External) (skills : List SkillMember) (k : String) where
  kept-IsMirrored_dir :
      (node : Node)
      → inspect_skill_entry lib ext k node ≡ inspect_dir lib ext k node
      → inspect_skill_entry lib ext k (copied node) ≡ inspect_dir lib ext k (copied node)
      → member k (slugs skills) ≡ false
      → IsMirroredDir lib ext k node (kept (remains lib ext false skills k) copied (some node))
  unfolding remains is_copied is_left inspect_dir
  kept-IsMirrored_dir node here there h = elim (Bool-cases (is_protected_skill_entry ext k)) [
    | inl e ↦ inl (e, ground (arith, e, here, there))
    | inr e ↦ elim (Result-cases (scan_directory lib default_limits node)) [
      | inr (p, s) ↦ inr (e, inl (p, s, ground (arith, e, s, here)))
      | inl (x, s) ↦ elim (Result-cases (scan_directory lib default_limits (copied node))) [
        | inr (p, t) ↦ inr (e, inr (x, s, inl (p, t, ground (arith, e, s, t, h, here, there))))
        | inl (f, t) ↦ inr (e, inr (x, s, inr (f, t, ground (arith, e, s, t, h, here, there))))
      ]
    ]
  ]

  pub kept-IsMirrored :
      (before : Option Node)
      → member k (slugs skills) ≡ false
      → IsMirrored lib ext k before (kept (remains lib ext false skills k) copied before)
  unfolding remains is_copied is_left inspect_skill_entry copied
  kept-IsMirrored none h = refl
  kept-IsMirrored (some (file mode size none)) h = ground (arith, h)
  kept-IsMirrored (some (file mode size (some body))) h = ground (arith, h)
  kept-IsMirrored (some (link to)) h = ground (arith, h)
  kept-IsMirrored (some (special mode content)) h = ground (arith, h)
  kept-IsMirrored (some (dir mode entries)) h = kept-IsMirrored_dir (dir mode entries) refl refl h
  kept-IsMirrored (some (closed mode)) h = kept-IsMirrored_dir (closed mode) refl refl h
