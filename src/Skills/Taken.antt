-- ===== src/Skills/Taken.antt =====
-- internal/skills/package.go: which files of an archive ScanZIP takes, and how many bytes they have.
use toolhub.Common.{
  ℕ, zero, suc, ◌+◌, ◌≤◌, String, ◌++◌, true, false, Option, none, some, List, [], ◌∷◌, ok, ◌>>=◌,
  >>=-eq-ok, length, length-append, ◌≡◌, refl, ap, ◌⊎◌, inl, inr, Bool-cases, Option-cases, arith,
  if◌then◌else◌,
}
use toolhub.Common.{All}
use toolhub.Files.{Bytes, take}
use toolhub.Skills.{Limits, PackageFile, ZipFile, total_size}
use toolhub.Skills.Archive.{check_header, read_zip_file, add_file, take_file, take_files}

-- The files of an archive that are no directories, and the bytes of their contents.
abbrev pub file_number : List ZipFile → ℕ
file_number [] = 0
file_number (f ∷ fs) = let rest = file_number fs in if f.is_dir then rest else suc rest

abbrev content_length : Option Bytes → ℕ
content_length none = 0
content_length (some body) = length body

abbrev pub file_bytes : List ZipFile → ℕ
file_bytes [] = 0
file_bytes (f ∷ fs) =
    let rest = file_bytes fs in if f.is_dir then rest else content_length f.content + rest

-- A file that is no directory is no link, says no more than the limit, and has no more.
abbrev pub IsTaken : Limits → ZipFile → Type 0
IsTaken limits f =
    (f.is_dir ≡ true)
    ⊎ ((f.is_symlink ≡ false)
        × (f.uncompressed_size ≤ limits.max_file_bytes)
        × ((body : Bytes) × (f.content ≡ some body) × (length body ≤ limits.max_file_bytes)))

total_size-append :
    (fs gs : List PackageFile) → total_size (fs ++ gs) ≡ total_size fs + total_size gs
unfolding total_size
total_size-append [] gs = omega arith
total_size-append (f ∷ fs) gs = omega (arith, total_size-append fs gs)

-- What is shorter than the reader's limit is read whole.
take-suc : (n : ℕ) (bs : Bytes) → length (take (suc n) bs) ≤ n → take (suc n) bs ≡ bs
unfolding take
take-suc n [] h = refl
take-suc zero (b ∷ bs) h = absurd (omega (arith, h))
take-suc (suc n) (b ∷ bs) h = ap (λ r. b ∷ r) (take-suc n bs (omega (arith, h)))

read_zip_file-whole :
    (f : ZipFile) (limit : ℕ) {body : Bytes}
    → read_zip_file f limit ≡ ok body
    → (f.content ≡ some body) × (length body ≤ limit)
unfolding read_zip_file
read_zip_file-whole f limit h = elim (Option-cases f.content) [
  | inl e ↦ absurd (ground (arith, e, h))
  | inr (b, e) ↦ ground (arith, e, h, take-suc limit b)
]

module _ (limits : Limits) where
  check_header-IsAllowed :
      (f : ZipFile) (fs : List PackageFile) {name : String}
      → check_header limits f fs ≡ ok name
      → (f.is_symlink ≡ false) × (f.uncompressed_size ≤ limits.max_file_bytes)
  unfolding check_header
  check_header-IsAllowed f fs h = ground arith

  add_file-counts :
      (name : String) (mode : ℕ) (fs : List PackageFile) (body : Bytes) {gs : List PackageFile}
      → add_file limits name mode fs body ≡ ok gs
      → (length gs ≡ length fs + 1) × (total_size gs ≡ total_size fs + length body)
  unfolding add_file total_size
  add_file-counts name mode fs body h =
      let g : PackageFile = record { name = name; mode = mode; body = body } in
      ground (arith, h, length-append fs (g ∷ []), total_size-append fs (g ∷ []))

  take_file-counts :
      (f : ZipFile) (fs : List PackageFile) {gs : List PackageFile}
      → f.is_dir ≡ false
      → take_file limits f fs ≡ ok gs
      → IsTaken limits f
        × (length gs ≡ length fs + 1)
        × (total_size gs ≡ total_size fs + content_length f.content)
  unfolding take_file
  take_file-counts f fs d h =
      let (name, headed, more) =
        >>=-eq-ok (check_header limits f fs)
          (λ name. read_zip_file f limits.max_file_bytes >>= add_file limits name f.mode fs) h in
      let (body, read, last) =
        >>=-eq-ok (read_zip_file f limits.max_file_bytes) (add_file limits name f.mode fs) more in
      let (whole, short) = read_zip_file-whole f limits.max_file_bytes read in
      let (plain, small) = check_header-IsAllowed f fs headed in
      let (count, total) = add_file-counts name f.mode fs body last in
      (inr (plain, small, (body, whole, short)), count, rw whole total)

  pub take_files-counts :
      (files : List ZipFile) (fs : List PackageFile) {gs : List PackageFile}
      → take_files limits files fs ≡ ok gs
      → All (IsTaken limits) files
        × (length gs ≡ length fs + file_number files)
        × (total_size gs ≡ total_size fs + file_bytes files)
  unfolding take_files
  take_files-counts [] fs h = ground (arith, h)
  take_files-counts (f ∷ files) fs h = elim (Bool-cases f.is_dir) [
    | inl e ↦
        let (each, count, total) = take_files-counts files fs (rw e at h) in
        ((inl e, each), rw e count, rw e total)
    | inr e ↦
        let (taken, one, rest) = >>=-eq-ok _ _ (rw e at h) in
        let (first, count, total) = take_file-counts f fs e one in
        let (each, counts, totals) = take_files-counts files taken rest in
        ((first, each), rw e (omega (arith, count, counts)), rw e (omega (arith, total, totals)))
  ]
