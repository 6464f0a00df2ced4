-- ===== src/Runtime/Extract.antt =====
-- internal/runtime/manager.go: extractSkillArtifact. The owners of files are left out.
use toolhub.Common.{
  ℕ, suc, String, true, false, ◌||◌, Option, none, some, List, [], ◌∷◌, Result, ok, err, ◌>>=◌,
  length, ltb, ◌==◌, starts_with, if◌then◌else◌,
}
use toolhub.Common.Path.{is_abs, clean, split_path}
use toolhub.Common.Text.{text_lt}
use toolhub.Files.{Bytes, Node, Entries, perm, take}
use toolhub.Files.Node.{file, dir}
use toolhub.Files.Entries.{none_left, entry}
use toolhub.Protocol.Errors.{Error, plain}
use toolhub.Runtime.{Artifact}
use toolhub.Skills.{default_limits, Library, Package, ZipFile}
use toolhub.Skills.Archive.{scan_zip}

-- The first entry of a name.
unfoldable pub find_entry : String → Entries → Option Node
find_entry name none_left = none
find_entry name (entry n node rest) = if n == name then some node else find_entry name rest

-- A new entry, where os.ReadDir shows it.
unfoldable pub insert_entry : String → Node → Entries → Entries
insert_entry name node none_left = entry name node none_left
insert_entry name node (entry n other rest) =
    if text_lt name n
    then entry name node (entry n other rest)
    else entry n other (insert_entry name node rest)

unfoldable pub remove_entry : String → Entries → Entries
remove_entry name none_left = none_left
remove_entry name (entry n node rest) =
    let below = remove_entry name rest in if n == name then below else entry n node below

-- The mode that chmodDirectories gives, 0755.
abbrev dir_mode : ℕ
dir_mode = 493

replace_dir : String → Entries → Option Entries → Option Entries
replace_dir name entries none = none
replace_dir name entries (some below) =
    some (insert_entry name (dir dir_mode below) (remove_entry name entries))

-- os.MkdirAll of the directories of a path and os.OpenFile with O_EXCL; `none` is an error.
unfoldable pub place : List String → Node → Entries → Option Entries
unfolding replace_dir
place [] node entries = none
place (name ∷ []) node entries = elim (find_entry name entries) [
  | none ↦ some (insert_entry name node entries)
  | some other ↦ none
]
place (name ∷ next ∷ path) node entries = elim (find_entry name entries) [
  | none ↦ replace_dir name entries (place (next ∷ path) node none_left)
  | some (dir mode below) ↦ replace_dir name entries (place (next ∷ path) node below)
  | some other ↦ none
]

extract_body : Option Bytes → Result Error Bytes
extract_body none = err (plain "open")
extract_body (some body) =
    let written = take (suc default_limits.max_file_bytes) body in
    if ltb default_limits.max_file_bytes (length written)
    then err (plain "artifact file exceeds safety limit")
    else ok written

extract_file : ZipFile → Entries → Result Error Entries
unfolding extract_body
extract_file item entries =
    let path = clean item.name in
    if path == "." || path == ".." || is_abs path || starts_with path "../" || item.is_symlink
    then err (plain "artifact contains an unsafe path or symlink")
    else extract_body item.content >>= λ body.
        elim (place (split_path path) (file (perm item.mode) (length body) (some body)) entries) [
          | none ↦ err (plain "create")
          | some entries' ↦ ok entries'
        ]

-- The loop over the files of the canonical archive.
unfoldable pub extract_files : List ZipFile → Entries → Result Error Entries
unfolding extract_file
extract_files [] entries = ok entries
extract_files (item ∷ items) entries = elim item.is_dir [
  | true ↦ extract_files items entries
  | false ↦ extract_file item entries >>= λ entries'. extract_files items entries'
]

module _ (lib : Library) where
  checked_package : Artifact → Result Error Package
  checked_package artifact = elim (scan_zip lib default_limits artifact.archive) [
    | err e ↦ err (plain "artifact is no Skill package")
    | ok pkg ↦
        if pkg.sha256 == artifact.sha256
        then ok pkg
        else err (plain "artifact canonical SHA-256 mismatch")
  ]

  -- extractSkillArtifact
  unfoldable pub extract_skill_artifact : Artifact → Result Error Node
  unfolding checked_package
  extract_skill_artifact artifact = checked_package artifact >>= λ pkg.
      elim (lib.open_zip pkg.canonical_zip) [
        | none ↦ err (plain "zip")
        | some files ↦ extract_files files none_left >>= λ entries. ok (dir dir_mode entries)
      ]
