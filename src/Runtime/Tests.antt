-- ===== src/Runtime/Tests.antt =====
-- Runs on a small Skill root, and the theorems at them.
use toolhub.Common.{
  String, true, false, none, some, List, [], ◌∷◌, ok, err, ◌≡◌, refl, ap, ◌⊎◌, arith,
}
use toolhub.Common.Int.{pos}
use toolhub.Bridge.Operation.{TargetResult}
use toolhub.Files.{Bytes, Node, Entries, utf8, has_prefix, drop, take}
use toolhub.Skills.Archive.{
  read_zip_file, check_header, add_file, take_file, take_files, open_archive, scan_zip,
}
use toolhub.Skills.Directory.{
  check_entry, read_body, visit_file, is_compiled, visit, walk_node, walk_entries, walk_root,
  scan_directory,
}
use toolhub.Skills.Build.{
  package_of, skill_body, name_of, canonical_zip_of, name_package, describe, read_manifest,
  build_package, canonical_content_hash,
}
use toolhub.Skills.Contents.{
  skill_paths, strip_root, strip_below, below_only, normalize_root, parse_frontmatter,
}
use toolhub.Skills.Paths.{
  safe_archive_path, base, parent, dir_name, ext as extension, join, trim_prefix,
}
use toolhub.Skills.Inspect.{string_value}
use toolhub.Common.Path.{clean, split_path, push_char}
use toolhub.Common.Text.{trim_space, to_lower, contains}
use toolhub.Common.Sort.{sort_by}
use toolhub.Files.Node.{file, link, dir}
use toolhub.Files.Entries.{none_left, entry}
use toolhub.Json.{Json, Fields, lookup_field}
use toolhub.Protocol.Errors.{plain}
use toolhub.Protocol.External.{External}
use toolhub.Protocol.Manifest.{DesiredManifest, SkillMember}
use toolhub.Protocol.Target.{Target, is_protected_skill_entry}
use toolhub.Runtime.{Disk, ReplaceCalls, StageCalls, InventoryMember}
use toolhub.Runtime.Copy.{
  copy_tree, account_copied_entry, copied_body, copied_file, read_copy, copy_file, copied_link,
  copied_dir, copied_entry, copy_entries,
}
use toolhub.Runtime.Copy.Faithful.{copied, IsWhole, IsCounted, copy_tree-copied}
use toolhub.Runtime.Extract.{
  find_entry, insert_entry, remove_entry, place, extract_files, extract_skill_artifact,
}
use toolhub.Runtime.Inventory.{
  skill_member, find_last, is_drifted, managed_drift, scan_skill_root, hash_inventory,
  inspect_entries, inspect_skill_entry,
}
use toolhub.Runtime.Manager.{
  Calls, CommitRequest, apply, scan, mirror_stage, stage_node, mirror_skill_root, after_mirror,
  roll_back, back_up_and_mirror, ReconcileRequest, reconcile,
}
use toolhub.Runtime.Manager.Repair.{reconcile-keeps}
use toolhub.Runtime.Manager.Unwanted.{IsMirrored}
use toolhub.Runtime.Manager.Mirror.{apply-mirrors}
use toolhub.Runtime.Manager.Recovery.{IsRecoverable, apply-IsRecoverable}
use toolhub.Runtime.Manager.Rollback.{IsStaged, restored_node-backup_node, apply-err}
use toolhub.Runtime.Paths.{ManagedUser, candidates, is_within, paths_for}
use toolhub.Runtime.Preflight.{
  item, desired_map, find_skill, delete_skill, compare_members, added, sort_diff, preflight_diff,
}
use toolhub.Runtime.Replace.{
  api_error, BackupCalls, backup_node, restored_node, is_there, set_aside, fail_stage, finish, pop,
  atomic_replace_directory, replace_root, backup_disk, copy_dir, copied_root, restore_root,
  find_backup,
}
use toolhub.Runtime.Stage.{
  extract_skill, find_artifact, artifact_for, staged_entry, is_copied, copy_root_for_stage,
  start_stage, is_left, remove_unmanaged, put_skills, stage_mode, pruned, filled, stage_entries,
}
use toolhub.Runtime.Stage.Contents.{last_skill, kept, root_entries}
use toolhub.Skills.{Library, total_size}

abbrev frontmatter : Bytes
frontmatter = utf8 "---\nname: Review\n---\n"

abbrev lib : Library
lib = record {
  open_zip = λ _. some (
      record {
        name = "SKILL.md";
        is_dir = false;
        is_symlink = false;
        mode = 420;
        uncompressed_size = 21;
        content = some frontmatter;
      }
      ∷ []);
  write_zip = λ _. some (1 ∷ []);
  sha256_hex = λ _. "ab";
  unmarshal_yaml = λ _. some (Fields.field "name" (Json.str "Review") Fields.end);
  matches = λ _ _. false;
  find_all = λ _ _. [];
  parse_url = λ _. none;
  unicode_lower = λ c. c;
  unicode_upper = λ c. c;
}

abbrev ext : External
ext = record { validate_uuid = λ _. true; unicode_lower = λ c. c; canonical_hash = λ _. none }

abbrev members_hash : List InventoryMember → String
members_hash _ = "r1"

abbrev target : Target
target = record {
  id = "t";
  node_id = "n";
  node_kind = "local";
  salt_minion_id = "";
  runtime = "claude";
  managed_username = "dev";
  managed_home = "/home/dev";
}

abbrev skill : SkillMember
skill = record {
  member_id = "m";
  skill_id = "s";
  version_id = "v";
  slug = "review";
  sha256 = "ab";
  content_hash = "ab";
}

abbrev manifest : DesiredManifest
manifest = record {
  schema_version = pos 1;
  target = target;
  profile_id = "p";
  profile_revision = pos 1;
  skills = skill ∷ [];
  mcp_servers = [];
  managed_member_ids = "m" ∷ [];
  relay_port = pos 0;
  relay_governance = none;
}

abbrev skill_dir : Node
skill_dir = dir 493 (entry "SKILL.md" (file 420 21 (some frontmatter)) none_left)

-- A directory of the system, a link, and a Skill that no manifest wants.
abbrev entries : Entries
entries =
    entry ".system" (dir 448 none_left)
      (entry "linked" (link "/srv/skill") (entry "old" skill_dir none_left))

abbrev disk : Disk
disk = record { root = some (dir 493 entries); leftovers = []; backups = [] }

abbrev all_well : ReplaceCalls
all_well = record { moves_target = true; moves_stage = true; moves_back = true; removes_old = true }

abbrev well : StageCalls
well = record { prepare = none; writes = none; replace = all_well }

abbrev backup_calls : BackupCalls
backup_calls = record { backup_root = "/var/backups"; id = "b1"; prepare = none; writes = none }

abbrev calls : Calls
calls = record {
  backup = backup_calls;
  change = well;
  rollback = well;
  scan_before = none;
  scan_after = none;
}

-- The stage is not moved into place, and the old root is not moved back.
abbrev broken : Calls
broken = record {
  backup = backup_calls;
  change = record well { replace = record all_well { moves_stage = false; moves_back = false } };
  rollback = well;
  scan_before = none;
  scan_after = none;
}

-- The scan after the change fails.
abbrev unread : Calls
unread = record calls { scan_after = some (plain "read directory") }

abbrev user : ManagedUser
user = record { name = "dev"; home = "/home/dev"; uid = 1000; gid = 1000 }

abbrev request : CommitRequest
request = record {
  operation_id = "o";
  target = target;
  expected_revision = "r1";
  manifest = manifest;
  artifacts = record { version_id = "v"; sha256 = "ab"; archive = 1 ∷ [] } ∷ [];
  backup_id = "";
}

abbrev after : Disk
after = record {
  root = some (
      dir 493 (
        entry ".system" (dir 448 none_left)
          (entry "linked" (link "/srv/skill") (entry "review" skill_dir none_left))));
  leftovers = [];
  backups = ("b1", dir 493 entries) ∷ [];
}

abbrev result : TargetResult
result = record {
  status = "succeeded";
  health = "healthy";
  target_revision = "r1";
  backup_id = "b1";
  repaired = false;
  manifest = some manifest;
  relay = none;
  details = none;
  error = none;
}

-- What stands after an Apply that could not move the stage, nor the old root back, and was rolled back.
abbrev rolled_back : Disk
rolled_back = record {
  root = some (dir 493 entries);
  leftovers = dir 493 entries ∷ [];
  backups = ("b1", dir 493 entries) ∷ [];
}

abbrev repair : ReconcileRequest
repair = record {
  operation_id = "o";
  target = target;
  manifest = manifest;
  artifacts = request.artifacts;
}

-- After a repair the unwanted Skill is still there.
abbrev repaired : Disk
repaired = record after {
  root = some (
      dir 493 (
        entry ".system" (dir 448 none_left) (
          entry "linked" (link "/srv/skill")
            (entry "old" skill_dir (entry "review" skill_dir none_left)))));
}

-- The unwanted Skill goes, the desired one comes, and what is protected stays; the second run fails and is
-- rolled back; the third is a repair; the fourth fails when all is done, and is not rolled back.
apply_run :
    (apply lib ext members_hash calls user request disk ≡ (ok result, after))
    × (apply lib ext members_hash broken user request disk
        ≡ (err (api_error "atomic_write_failed" "Atomic target replacement failed"), rolled_back))
    × (reconcile lib ext members_hash calls user repair disk
        ≡ (ok (record result { repaired = true; manifest = none }), repaired))
    × (apply lib ext members_hash unread user request disk ≡ (err (plain "read directory"), after))
unfolding apply reconcile managed_drift find_last is_drifted copy_tree backup_node paths_for
    is_within candidates total_size scan mirror_stage stage_node mirror_skill_root after_mirror
    roll_back back_up_and_mirror scan_skill_root hash_inventory inspect_entries inspect_skill_entry
    is_there set_aside fail_stage finish pop atomic_replace_directory replace_root backup_disk
    copy_dir copied_root restore_root find_backup find_artifact artifact_for staged_entry is_copied
    copy_root_for_stage start_stage is_left remove_unmanaged extract_skill put_skills stage_mode
    pruned filled stage_entries insert_entry remove_entry place extract_files extract_skill_artifact
    account_copied_entry copied_body copied_file read_copy copy_file copied_link copied_dir
    copied_entry copy_entries read_zip_file check_header add_file take_file take_files open_archive
    scan_zip check_entry read_body visit_file is_compiled visit walk_node walk_entries walk_root
    scan_directory package_of skill_body name_of canonical_zip_of name_package describe
    read_manifest build_package canonical_content_hash skill_paths strip_root strip_below below_only
    normalize_root parse_frontmatter safe_archive_path base parent dir_name extension join
    trim_prefix string_value clean split_path push_char trim_space to_lower contains sort_by
    has_prefix drop take utf8 lookup_field is_protected_skill_entry find_entry restored_node
apply_run = (refl, refl, refl, refl)

-- The bits of the modes, and the lengths of the files, are those that copies keep.
entries-IsWhole : IsWhole (dir 493 entries)
unfolding IsWhole utf8
entries-IsWhole = (
  omega arith,
  ((omega arith, tt), (tt, ((omega arith, ((omega arith, refl, omega arith), tt)), tt))),
)

apply-mirrors_example :
    ((s : SkillMember) × (node : Node) × (last_skill ".system" (skill ∷ []) ≡ some s)
      × (extract_skill lib request.artifacts s ≡ ok node)
      × (find_entry ".system"
            (root_entries (Disk.root ((apply lib ext members_hash calls user request disk).1)))
          ≡ some node))
    ⊎ ((last_skill ".system" (skill ∷ []) ≡ none)
        × IsMirrored lib ext ".system" (find_entry ".system" entries) (
            find_entry ".system"
              (root_entries (Disk.root ((apply lib ext members_hash calls user request disk).1)))))
apply-mirrors_example =
    apply-mirrors lib ext members_hash calls user request disk result ".system" (omega arith)
      (ap (λ o. o.0) (apply_run.0))

apply-IsRecoverable_example :
    IsRecoverable "b1" disk ((apply lib ext members_hash broken user request disk).1)
apply-IsRecoverable_example = apply-IsRecoverable lib ext members_hash broken user request disk

apply-err_example :
    (Disk.root ((apply lib ext members_hash broken user request disk).1) ≡ some (dir 493 entries))
    ⊎ ((none ≡ some (api_error "atomic_write_failed" "Atomic target replacement failed"))
        × IsStaged lib ext false
            (skill ∷ [])
            request.artifacts
            (some (dir 493 entries))
            (Disk.root ((apply lib ext members_hash broken user request disk).1)))
apply-err_example =
    apply-err lib ext members_hash broken 493 entries (refl, refl, refl, refl) entries-IsWhole user
      request disk (api_error "atomic_write_failed" "Atomic target replacement failed") refl
      (ap (λ o. o.0) (apply_run.1))

backup_run : backup_node (some (dir 493 entries)) ≡ ok (dir 493 entries)
unfolding backup_node copy_dir copied_root copy_tree copy_entries account_copied_entry copied_body
    copied_file read_copy copy_file copied_link copied_dir copied_entry take utf8
backup_run = refl

restored_node-backup_node_example : restored_node (some (dir 493 entries)) ≡ ok (dir 493 entries)
restored_node-backup_node_example =
    restored_node-backup_node 493 entries (dir 493 entries) entries-IsWhole backup_run

copy_run :
    copy_tree skill_dir (record { files = 0; bytes = 0 })
    ≡ ok (skill_dir, record { files = 1; bytes = 21 })
unfolding copy_tree copy_entries account_copied_entry copied_body copied_file read_copy copy_file
    copied_dir copied_entry take utf8
copy_run = refl

copy_tree-copied_example :
    (skill_dir ≡ copied skill_dir) × IsCounted (record { files = 1; bytes = 21 })
copy_tree-copied_example =
    copy_tree-copied skill_dir (record { files = 0; bytes = 0 }) (omega arith, omega arith) copy_run

-- A Skill to delete, one to replace, one to add, and an entry that is protected.
abbrev members : List InventoryMember
members =
    skill_member "review" "old" false
    ∷ skill_member "extra" "x" false
    ∷ skill_member ".system" "" true
    ∷ []

preflight_diff_run : preflight_diff members (skill ∷ record skill { slug = "new" } ∷ []) ≡ record {
  add = item "skill" "m" "new" "" ∷ [];
  replace = item "skill" "m" "review" "" ∷ [];
  delete = item "skill" "" "extra" "" ∷ [];
  excluded = item "skill" "" ".system" "protected" ∷ [];
}
unfolding preflight_diff compare_members desired_map find_skill delete_skill added sort_diff
preflight_diff_run = refl

drift_run :
    (managed_drift members (skill ∷ []) ≡ true)
    × (managed_drift (skill_member "review" "ab" false ∷ members) [] ≡ false)
unfolding managed_drift find_last is_drifted
drift_run = (refl, refl)

paths_run :
    (is_within "/home/dev" "/home/dev/.codex/skills" ≡ true)
    × (is_within "/home/dev" "/home/dev/../eve" ≡ false)
unfolding is_within clean split_path push_char
paths_run = (refl, refl)

reconcile-keeps_example :
    (Disk.root ((reconcile lib ext members_hash calls user repair disk).1) ≡ some (dir 493 entries))
    ⊎ (find_entry "old"
          (root_entries (Disk.root ((reconcile lib ext members_hash calls user repair disk).1)))
        ≡ kept (λ _. true) copied (find_entry "old" entries))
reconcile-keeps_example =
    reconcile-keeps lib ext members_hash calls user repair disk
      (record result { repaired = true; manifest = none }) "old" (omega arith) refl
      (ap (λ o. o.0) (apply_run.2))
