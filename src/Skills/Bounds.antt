-- ===== src/Skills/Bounds.antt =====
-- The limits of ScanZIP and ScanDirectory, and what the report counts.
use toolhub.Common.{
  ℕ, ◌+◌, ◌≤◌, Char, String, Bool, true, false, Option, some, List, [], ◌∷◌, ◌++◌, Result, ok,
  ◌>>=◌, >>=-eq-ok, length, length-append, ◌≡◌, subst, inl, inr, Bool-cases, arith, ◌==◌, ◌||◌, ltb,
  if◌then◌else◌,
}
use toolhub.Files.{Bytes, Node, Entries}
use toolhub.Files.Node.{file, link, special, dir, closed}
use toolhub.Files.Entries.{none_left, entry}
use toolhub.Skills.{Limits, Library, Package, PackageFile, SkillError, ZipFile, total_size}
use toolhub.Skills.Paths.{join}
use toolhub.Skills.Taken.{IsTaken, file_number, file_bytes, take_files-counts}
use toolhub.Common.{All}
use toolhub.Skills.Build.{build_package}
use toolhub.Skills.Counts.{build_package-counts}
use toolhub.Skills.Archive.{
  check_header, read_zip_file, add_file, take_file, take_files, open_archive, scan_zip,
}
use toolhub.Skills.Directory.{
  read_body, check_entry, is_compiled, visit_file, visit, walk_node, walk_entries,
}

abbrev IsWithin : Limits → List PackageFile → Type 0
IsWithin limits files =
    (length files ≤ limits.max_files) × (total_size files ≤ limits.max_uncompressed_bytes)

total_size-append :
    (fs gs : List PackageFile) → total_size (fs ++ gs) ≡ total_size fs + total_size gs
unfolding total_size
total_size-append [] gs = omega arith
total_size-append (f ∷ fs) gs = omega (arith, total_size-append fs gs)

module _ (limits : Limits) where
  open limits use {max_files, max_uncompressed_bytes}

  -- A file on top of others that leave room for it.
  IsWithin-append :
      (fs : List PackageFile) (g : PackageFile)
      → length fs + 1 ≤ max_files
      → total_size fs + length g.body ≤ max_uncompressed_bytes
      → IsWithin limits (fs ++ (g ∷ []))
  unfolding total_size
  IsWithin-append fs g count total =
      ground (arith, length-append fs (g ∷ []), total_size-append fs (g ∷ []))

  check_header-room :
      (f : ZipFile) (fs : List PackageFile) {name : String}
      → check_header limits f fs ≡ ok name
      → length fs + 1 ≤ max_files
  unfolding check_header
  check_header-room f fs h = ground arith

  add_file-IsWithin :
      (name : String) (mode : ℕ) (fs : List PackageFile) (body : Bytes) {gs : List PackageFile}
      → length fs + 1 ≤ max_files
      → add_file limits name mode fs body ≡ ok gs
      → IsWithin limits gs
  unfolding add_file
  add_file-IsWithin name mode fs body room h =
      let g : PackageFile = record { name = name; mode = mode; body = body } in
      elim (Bool-cases (ltb max_uncompressed_bytes (total_size fs + length body))) [
        | inl e ↦ absurd (ground (arith, h, e))
        | inr e ↦
            subst (IsWithin limits) (ground (arith, h, e))
              (IsWithin-append fs g room (ground (arith, e)))
      ]

  -- A file is taken only where the count and the sum stay within the limits.
  take_file-IsWithin :
      (f : ZipFile) (fs : List PackageFile) {gs : List PackageFile}
      → take_file limits f fs ≡ ok gs
      → IsWithin limits gs
  unfolding take_file
  take_file-IsWithin f fs h =
      let (name, headed, more) =
        >>=-eq-ok (check_header limits f fs)
          (λ name. read_zip_file f limits.max_file_bytes >>= add_file limits name f.mode fs) h in
      let (body, read, last) =
        >>=-eq-ok (read_zip_file f limits.max_file_bytes) (add_file limits name f.mode fs) more in
      add_file-IsWithin name f.mode fs body (check_header-room f fs headed) last

  take_files-IsWithin :
      (files : List ZipFile) (fs : List PackageFile) {gs : List PackageFile}
      → IsWithin limits fs
      → take_files limits files fs ≡ ok gs
      → IsWithin limits gs
  unfolding take_files
  take_files-IsWithin [] fs w h = subst (IsWithin limits) (cc) w
  take_files-IsWithin (f ∷ files) fs w h = elim (Bool-cases f.is_dir) [
    | inl e ↦ take_files-IsWithin files fs w (rw e at h)
    | inr e ↦
        let (taken, one, rest) = >>=-eq-ok _ _ (rw e at h) in
        take_files-IsWithin files taken (take_file-IsWithin f fs one) rest
  ]

  check_entry-room :
      (path : String) (size : ℕ) (fs : List PackageFile) {name : String}
      → check_entry limits path size fs ≡ ok name
      → length fs + 1 ≤ max_files
  unfolding check_entry
  check_entry-room path size fs h = ground arith

  visit_file-IsWithin :
      (path : String) (mode size : ℕ) (content : Option Bytes) (fs : List PackageFile)
      {gs : List PackageFile}
      → visit_file limits path mode size content fs ≡ ok gs
      → IsWithin limits gs
  unfolding visit_file
  visit_file-IsWithin path mode size content fs h =
      let (name, entered, more) =
        >>=-eq-ok (check_entry limits path size fs)
          (λ name. read_body content >>= add_file limits name mode fs) h in
      let (body, read, last) = >>=-eq-ok (read_body content) (add_file limits name mode fs) more in
      add_file-IsWithin name mode fs body (check_entry-room path size fs entered) last

  -- A step that a test skips.
  unless-IsWithin :
      (b : Bool) (fs : List PackageFile) (r : Result SkillError (List PackageFile))
      {gs : List PackageFile}
      → IsWithin limits fs
      → (r ≡ ok gs → IsWithin limits gs)
      → (if b then ok fs else r) ≡ ok gs
      → IsWithin limits gs
  unless-IsWithin true fs r w next h = subst (IsWithin limits) (cc) w
  unless-IsWithin false fs r w next h = next h

  module _ (lower : Char → Char) where
    visit-IsWithin :
        (name path : String) (mode size : ℕ) (content : Option Bytes) (fs : List PackageFile)
        {gs : List PackageFile}
        → IsWithin limits fs
        → visit lower limits name path mode size content fs ≡ ok gs
        → IsWithin limits gs
    unfolding visit
    visit-IsWithin name path mode size content fs w h =
        unless-IsWithin (is_compiled lower limits name || name == ".toolhub-managed.json") fs
          (visit_file limits path mode size content fs) w
          (visit_file-IsWithin path mode size content fs) h

    mutual
      unfolding walk_node

      walk_node-IsWithin :
          (name path : String) (node : Node) (fs : List PackageFile) {gs : List PackageFile}
          → IsWithin limits fs
          → walk_node lower limits name path node fs ≡ ok gs
          → IsWithin limits gs
      walk_node-IsWithin name path (file m s c) fs w h = visit-IsWithin name path m s c fs w h
      walk_node-IsWithin name path (link to) fs w h = subst (IsWithin limits) (ground (arith, h)) w
      walk_node-IsWithin name path (special m c) fs w h = visit-IsWithin name path m 0 c fs w h
      walk_node-IsWithin name path (dir m es) fs w h =
          unless-IsWithin (name == "__pycache__") fs (walk_entries lower limits path es fs) w
            (λ more. walk_entries-IsWithin path es fs w more) h
      walk_node-IsWithin name path (closed m) fs w h = subst (IsWithin limits) (ground (arith, h)) w

      walk_entries-IsWithin :
          (path : String) (es : Entries) (fs : List PackageFile) {gs : List PackageFile}
          → IsWithin limits fs
          → walk_entries lower limits path es fs ≡ ok gs
          → IsWithin limits gs
      walk_entries-IsWithin path none_left fs w h = subst (IsWithin limits) (cc) w
      walk_entries-IsWithin path (entry name node rest) fs w h =
          let (taken, one, more) = >>=-eq-ok _ _ h in
          walk_entries-IsWithin path rest taken
            (walk_node-IsWithin name (join path name) node fs w one) more

nothing-IsWithin : (limits : Limits) → IsWithin limits []
unfolding total_size
nothing-IsWithin limits = (omega arith, omega arith)

open_archive-room :
    (lib : Library) (limits : Limits) (body : Bytes) {files : List ZipFile}
    → open_archive lib limits body ≡ ok files
    → length body ≤ limits.max_archive_bytes
unfolding open_archive
open_archive-room lib limits body h = ground arith

open_archive-files :
    (lib : Library) (limits : Limits) (body : Bytes) {files : List ZipFile}
    → open_archive lib limits body ≡ ok files
    → lib.open_zip body ≡ some files
unfolding open_archive
open_archive-files lib limits body h = ground arith

-- ScanZIP accepts only an archive within the limit, of files within the limits: none is a link, each is
-- read whole and has no more bytes than a file may, and there are no more files, and no more bytes in all,
-- than a package may have. The report's numbers are those of the files that are no directories and of the
-- bytes of their contents.
pub scan_zip-limits :
    (lib : Library) (limits : Limits) (body : Bytes) (p : Package)
    → scan_zip lib limits body ≡ ok p
    → (length body ≤ limits.max_archive_bytes)
      × ((files : List ZipFile) × (lib.open_zip body ≡ some files)
          × All (IsTaken limits) files
          × (p.report.file_count ≡ file_number files)
          × (file_number files ≤ limits.max_files)
          × (p.report.size_bytes ≡ file_bytes files)
          × (file_bytes files ≤ limits.max_uncompressed_bytes))
unfolding scan_zip total_size
scan_zip-limits lib limits body p h =
    let (files, opened, more) =
      >>=-eq-ok (open_archive lib limits body)
        (λ files. take_files limits files [] >>= build_package lib) h in
    let (taken, took, built) = >>=-eq-ok (take_files limits files []) (build_package lib) more in
    let (count, total) = build_package-counts lib taken built in
    let (fits, sums) = take_files-IsWithin limits files [] (nothing-IsWithin limits) took in
    let (each, counts, totals) = take_files-counts limits files [] took in
    (
      open_archive-room lib limits body opened,
      (
        files,
        open_archive-files lib limits body opened,
        each,
        omega (arith, count, counts),
        omega (arith, counts, fits),
        omega (arith, total, totals),
        omega (arith, totals, sums),
      ),
    )
