-- ===== src/Skills/Archive.antt =====
-- internal/skills/package.go: ScanZIP.
use toolhub.Common.{
  ℕ, suc, ◌+◌, String, true, false, none, some, List, [], ◌∷◌, ◌++◌, map, Result, ok, err, ◌>>=◌,
  length, member, ltb, if◌then◌else◌,
}
use toolhub.Files.{Bytes, take}
use toolhub.Skills.{Limits, Library, Package, PackageFile, SkillError, ZipFile, total_size}
use toolhub.Skills.Paths.{safe_archive_path}
use toolhub.Skills.Build.{build_package}

-- readZipFile
unfoldable pub read_zip_file : ZipFile → ℕ → Result SkillError Bytes
read_zip_file file limit = elim file.content [
  | none ↦ err SkillError.read_failed
  | some body ↦
      if ltb limit (length (take (suc limit) body))
      then err SkillError.read_failed
      else ok (take (suc limit) body)
]

module _ (limits : Limits) where
  open limits use {max_files, max_file_bytes, max_uncompressed_bytes}

  -- The checks on one file before it is read, with the files taken before it.
  unfoldable pub check_header : ZipFile → List PackageFile → Result SkillError String
  check_header file taken = elim (safe_archive_path file.name) [
    | none ↦ err SkillError.unsafe_path
    | some name ↦
        if member name (map (λ f. f.name) taken)
        then err SkillError.duplicate_path
        else if file.is_symlink
        then err SkillError.symlink
        else if ltb max_files (length taken + 1)
        then err SkillError.too_many_files
        else if ltb max_file_bytes file.uncompressed_size
        then err SkillError.file_too_big
        else ok name
  ]

  -- The file is added if the sum of the sizes allows it.
  unfoldable pub add_file :
      String → ℕ → List PackageFile → Bytes → Result SkillError (List PackageFile)
  add_file name mode taken body =
      if ltb max_uncompressed_bytes (total_size taken + length body)
      then err SkillError.package_too_big
      else ok (taken ++ (record { name = name; mode = mode; body = body } ∷ []))

  unfoldable pub take_file : ZipFile → List PackageFile → Result SkillError (List PackageFile)
  take_file file taken = check_header file taken >>= λ name.
      read_zip_file file max_file_bytes >>= add_file name file.mode taken

  -- The loop over the archive.
  unfoldable pub take_files : List ZipFile → List PackageFile → Result SkillError (List PackageFile)
  take_files [] taken = ok taken
  take_files (file ∷ files) taken = elim file.is_dir [
    | true ↦ take_files files taken
    | false ↦ take_file file taken >>= λ taken'. take_files files taken'
  ]

module _ (lib : Library) (limits : Limits) where
  open limits use {max_archive_bytes}

  unfoldable pub open_archive : Bytes → Result SkillError (List ZipFile)
  open_archive body =
      if ltb max_archive_bytes (length body)
      then err SkillError.archive_too_big
      else elim (lib.open_zip body) [ none ↦ err SkillError.bad_zip | some files ↦ ok files ]

  -- ScanZIP
  unfoldable pub scan_zip : Bytes → Result SkillError Package
  scan_zip body = open_archive body >>= λ files. take_files limits files [] >>= build_package lib
