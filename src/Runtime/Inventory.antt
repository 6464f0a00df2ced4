-- ===== src/Runtime/Inventory.antt =====
-- internal/runtime/manager.go: inspectSkillEntry, scanSkillRoot, hashInventory and managedDrift.
use Prim.Native.String.{◌++◌ as concat}
use toolhub.Common.{
  String, Bool, true, false, not, ◌||◌, Option, none, some, List, [], ◌∷◌, Result, ok, err, ◌==◌,
  if◌then◌else◌,
}
use toolhub.Common.Int.{pos}
use toolhub.Common.Sort.{sort_by}
use toolhub.Files.{Node, Entries}
use toolhub.Files.Node.{file, link, special, dir, closed}
use toolhub.Files.Entries.{none_left, entry}
use toolhub.Protocol.Errors.{Error, plain}
use toolhub.Protocol.External.{External}
use toolhub.Protocol.Manifest.{SkillMember}
use toolhub.Protocol.Target.{is_protected_skill_entry}
use toolhub.Runtime.{InventoryMember, ScanResult}
use toolhub.Skills.{default_limits, Library}
use toolhub.Skills.Directory.{scan_directory}

-- A member of which the other fields are empty.
abbrev pub member_of : String → String → String → String → Bool → InventoryMember
member_of id kind name hash protected = record {
  id = id;
  kind = kind;
  name = name;
  slug = "";
  description = "";
  content_hash = hash;
  protected = protected;
  scope = "user";
  revision = pos 0;
  secret_keys = [];
  source = "";
  provider = "";
  category = "";
  trust = "";
  importable = false;
  eligibility_reason = "";
}

abbrev pub skill_member : String → String → Bool → InventoryMember
skill_member name = member_of (concat "skill:" name) "skill" name

-- managedDrift: the last member of a name stands in the map.
unfoldable pub find_last : String → List InventoryMember → Option InventoryMember
find_last name [] = none
find_last name (m ∷ ms) = elim (find_last name ms) [
  | some found ↦ some found
  | none ↦ if m.name == name then some m else none
]

unfoldable pub is_drifted : Option InventoryMember → SkillMember → Bool
is_drifted none skill = true
is_drifted (some m) skill = m.protected || not (m.content_hash == skill.content_hash)

unfoldable pub managed_drift : List InventoryMember → List SkillMember → Bool
managed_drift current [] = false
managed_drift current (skill ∷ skills) =
    is_drifted (find_last skill.slug current) skill || managed_drift current skills

module _ (lib : Library) (ext : External) where
  -- A directory: protected by its name, or because it is no Skill package.
  unfoldable pub inspect_dir : String → Node → InventoryMember
  inspect_dir name node = elim (is_protected_skill_entry ext name) [
    | true ↦ skill_member name "" true
    | false ↦ elim (scan_directory lib default_limits node) [
      | err e ↦ skill_member name "" true
      | ok pkg ↦ skill_member name pkg.content_hash false
    ]
  ]

  -- inspectSkillEntry
  unfoldable pub inspect_skill_entry : String → Node → InventoryMember
  unfolding inspect_dir
  inspect_skill_entry name (file mode size content) =
      member_of (concat "entry:" name) "entry" name "" true
  inspect_skill_entry name (link to) = skill_member name "" true
  inspect_skill_entry name (special mode content) = skill_member name "" true
  inspect_skill_entry name (dir mode entries) = inspect_dir name (dir mode entries)
  inspect_skill_entry name (closed mode) = inspect_dir name (closed mode)

  unfoldable pub inspect_entries : Entries → List InventoryMember
  inspect_entries none_left = []
  inspect_entries (entry name node rest) = inspect_skill_entry name node ∷ inspect_entries rest

  -- The SHA-256, in hexadecimal, of the members' JSON.
  module _ (members_hash : List InventoryMember → String) where
    -- hashInventory
    unfoldable pub hash_inventory : List InventoryMember → ScanResult
    hash_inventory members =
        let sorted = sort_by (λ m. m.id) members in
        record { revision = members_hash sorted; members = sorted }

    -- scanSkillRoot
    unfoldable pub scan_skill_root : Option Node → Result Error ScanResult
    scan_skill_root none = ok (hash_inventory [])
    scan_skill_root (some (dir mode entries)) = ok (hash_inventory (inspect_entries entries))
    scan_skill_root (some (closed mode)) = err (plain "read directory")
    scan_skill_root (some _) = err (plain "runtime Skill root must be a real directory")
