-- ===== src/Skills/Directory.antt =====
-- internal/skills/package.go: ScanDirectory, over the tree of files that its root shows.
use toolhub.Common.{
  ℕ, ◌+◌, Char, String, Bool, ◌||◌, Option, none, some, List, [], Result, ok, err, ◌>>=◌, length,
  ltb, ◌==◌, if◌then◌else◌,
}
use toolhub.Common.Text.{to_lower}
use toolhub.Files.{Bytes, Node, Entries}
use toolhub.Files.Node.{file, link, special, dir, closed}
use toolhub.Files.Entries.{none_left, entry}
use toolhub.Skills.{Limits, Library, Package, PackageFile, SkillError}
use toolhub.Skills.Paths.{safe_archive_path, ext, join}
use toolhub.Skills.Archive.{add_file}
use toolhub.Skills.Build.{build_package}

-- os.ReadFile
unfoldable pub read_body : Option Bytes → Result SkillError Bytes
read_body none = err SkillError.read_failed
read_body (some body) = ok body

module _ (limits : Limits) where
  open limits use {max_files, max_file_bytes}

  -- The checks on a file before it is read: its path and size, and the files taken before it.
  unfoldable pub check_entry : String → ℕ → List PackageFile → Result SkillError String
  check_entry path size taken =
      if ltb max_files (length taken + 1)
      then err SkillError.too_many_files
      else if ltb max_file_bytes size
      then err SkillError.file_too_big
      else elim (safe_archive_path path) [ none ↦ err SkillError.unsafe_path | some name ↦ ok name ]

  unfoldable pub visit_file :
      String → ℕ → ℕ → Option Bytes → List PackageFile → Result SkillError (List PackageFile)
  visit_file path mode size content taken =
      check_entry path size taken >>= λ name. read_body content >>= add_file limits name mode taken

module _ (unicode_lower : Char → Char) (limits : Limits) where
  unfoldable pub is_compiled : String → Bool
  is_compiled name =
      let extension = to_lower unicode_lower (ext name) in
      extension == ".pyc" || extension == ".pyo"

  -- What is not a directory: its own name and its path.
  unfoldable pub visit :
      String
      → String
      → ℕ
      → ℕ
      → Option Bytes
      → List PackageFile
      → Result SkillError (List PackageFile)
  visit name path mode size content taken =
      if is_compiled name || name == ".toolhub-managed.json"
      then ok taken
      else visit_file limits path mode size content taken

  unfoldable mutual
    unfolding visit

    -- filepath.WalkDir with the function of ScanDirectory: an entry's name and path.
    pub walk_node : String → String → Node → List PackageFile → Result SkillError (List PackageFile)
    walk_node name path (file mode size content) taken = visit name path mode size content taken
    walk_node name path (link to) taken =
        if is_compiled name then ok taken else err SkillError.symlink
    walk_node name path (special mode content) taken = visit name path mode 0 content taken
    walk_node name path (dir mode entries) taken =
        let below = walk_entries path entries taken in
        if name == "__pycache__" then ok taken else below
    walk_node name path (closed mode) taken =
        if name == "__pycache__" then ok taken else err SkillError.read_failed

    pub walk_entries : String → Entries → List PackageFile → Result SkillError (List PackageFile)
    walk_entries path none_left taken = ok taken
    walk_entries path (entry name node rest) taken =
        walk_node name (join path name) node taken >>= λ taken'. walk_entries path rest taken'

-- A root that is not a directory has no files below it.
module _ (lib : Library) (limits : Limits) where
  unfoldable pub walk_root : Node → Result SkillError (List PackageFile)
  walk_root (dir mode entries) = walk_entries lib.unicode_lower limits "" entries []
  walk_root (closed mode) = err SkillError.read_failed
  walk_root _ = ok []

  -- ScanDirectory, once its root is resolved
  unfoldable pub scan_directory : Node → Result SkillError Package
  scan_directory root = walk_root root >>= build_package lib
