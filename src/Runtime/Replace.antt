-- ===== src/Runtime/Replace.antt =====
-- internal/runtime/manager.go: atomicReplaceDirectory, mirrorSkillRoot, backupRoot and restoreRoot.
use toolhub.Common.{
  ℕ, String, Bool, true, false, not, ◌&&◌, Option, none, some, List, [], ◌∷◌, Result, ok, err,
  ◌>>=◌, ◌==◌, if◌then◌else◌,
}
use toolhub.Common.Text.{trim_space}
use toolhub.Files.{Node, Entries, perm}
use toolhub.Files.Node.{dir}
use toolhub.Files.Entries.{none_left}
use toolhub.Protocol.Errors.{Error, api, plain}
use toolhub.Runtime.{Disk, ReplaceCalls, StageCalls}
use toolhub.Runtime.Copy.{Copied, copy_entries}

abbrev pub api_error : String → String → Error
api_error code message =
    api (record { code = code; message = message; retryable = false; details = none })

-- An error of the step, and the disk after it.
abbrev pub Step : Type 0
Step = Option Error × Disk

unfoldable pub pop : List Node → List Node
pop [] = []
pop (n ∷ ns) = ns

unfoldable pub is_there : Option Node → Bool
is_there none = false
is_there (some n) = true

-- os.Rename of the target, if there is one, to a new name beside it.
unfoldable pub set_aside : Disk → Disk
set_aside disk = elim disk.root [
  | none ↦ disk
  | some old ↦ record disk { root = none; leftovers = old ∷ disk.leftovers }
]

-- The stage does not become the target, and the old one is moved back.
unfoldable pub fail_stage : Bool → ReplaceCalls → Disk → Step
fail_stage existed calls disk = (
  some (api_error "atomic_write_failed" "Atomic target replacement failed"),
  if existed then (if calls.moves_back then disk else set_aside disk) else disk,
)

unfoldable pub finish : Bool → ReplaceCalls → Disk → Step
finish existed calls disk =
    if existed
    then (if calls.removes_old
        then (none, record disk { leftovers = pop disk.leftovers })
        else (some (plain "remove"), disk))
    else (none, disk)

-- atomicReplaceDirectory
unfoldable pub atomic_replace_directory : ReplaceCalls → Node → Disk → Step
atomic_replace_directory calls stage disk =
    let existed = is_there disk.root in
    if existed && not calls.moves_target
    then (some (plain "rename"), disk)
    else if not calls.moves_stage
    then fail_stage existed calls disk
    else finish existed calls (record (set_aside disk) { root = some stage })

-- A replacement: nothing is moved before the stage is written.
unfoldable pub replace_root : StageCalls → Result Error Node → Disk → Step
replace_root calls stage disk = elim calls.prepare [
  | some e ↦ (some e, disk)
  | none ↦ elim stage [
    | err e ↦ (some e, disk)
    | ok node ↦ elim calls.writes [
      | some e ↦ (some e, disk)
      | none ↦ atomic_replace_directory calls.replace node disk
    ]
  ]
]

-- The first backup of an identifier.
unfoldable pub find_backup : String → List (String × Node) → Option Node
find_backup id [] = none
find_backup id ((j, node) ∷ bs) = if j == id then some node else find_backup id bs

unfoldable pub copied_root : ℕ → Entries × Copied → Result Error Node
copied_root mode (copies, c) = ok (dir (perm mode) copies)

abbrev pub nothing_copied : Copied
nothing_copied = record { files = 0; bytes = 0 }

-- The loop of copyTree over a directory, and its permissions.
unfoldable pub copy_dir : ℕ → Entries → Result Error Node
copy_dir mode entries = copy_entries entries nothing_copied >>= copied_root mode

-- What a backup of the root holds.
unfoldable pub backup_node : Option Node → Result Error Node
backup_node none = ok (dir 448 none_left)
backup_node (some (dir mode entries)) = copy_dir mode entries
backup_node (some (Node.closed mode)) = err (plain "read directory")
backup_node (some _) = err (plain "cannot back up unsafe runtime root")

-- The calls of backupRoot: the identifier that uuid.NewString gives, and errors as those of StageCalls.
pub record BackupCalls : Type 0 where
  pub backup_root : String
  pub id : String
  pub prepare : Option Error
  pub writes : Option Error

-- backupRoot
unfoldable pub backup_disk : BackupCalls → Disk → Result Error Disk
backup_disk calls disk =
    if trim_space calls.backup_root == ""
    then err (plain "backup root is required")
    else elim calls.prepare [
      | some e ↦ err e
      | none ↦ elim (backup_node disk.root) [
        | err e ↦ err e
        | ok node ↦ elim calls.writes [
          | some e ↦ err e
          | none ↦ ok (record disk { backups = (calls.id, node) ∷ disk.backups })
        ]
      ]
    ]

-- What restoreRoot writes from a backup.
unfoldable pub restored_node : Option Node → Result Error Node
restored_node none = err (plain "lstat")
restored_node (some (dir mode entries)) = copy_dir mode entries
restored_node (some (Node.closed mode)) = err (plain "read directory")
restored_node (some _) = err (plain "backup root must be a real directory")

-- restoreRoot
unfoldable pub restore_root : StageCalls → String → Disk → Step
restore_root calls id disk = replace_root calls (restored_node (find_backup id disk.backups)) disk
