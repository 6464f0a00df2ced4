-- ===== src/Runtime/Copy/Faithful.antt =====
-- internal/runtime/manager.go: what a copy holds, and its limits.
use toolhub.Common.{
  ℕ, zero, suc, ◌≤◌, ◌<◌, ◌%◌, [], ◌∷◌, len, Option, none, some, ok, ◌>>=◌, >>=-eq-ok, length, ◌≡◌,
  refl, ap, sym, subst, arith,
}
use toolhub.Files.{Bytes, Node, Entries, take}
use toolhub.Files.Node.{file, link, special, dir, closed}
use toolhub.Files.Entries.{none_left, entry}
use toolhub.Skills.{default_limits}
use toolhub.Runtime.Copy.{
  Copied, account_copied_entry, copied_body, copied_file, read_copy, copy_file, copied_link,
  copied_dir, copied_entry, copy_tree, copy_entries, max_managed_files, max_managed_root_bytes,
}

-- The first bytes of a file.
unfoldable pub first_bytes : ℕ → Bytes → Bytes
first_bytes zero bs = []
first_bytes (suc n) [] = []
first_bytes (suc n) (b ∷ bs) = b ∷ first_bytes n bs

-- The tree with the nine permission bits of each mode, and of each file the first 10 MiB and one byte.
unfoldable mutual
  pub copied : Node → Node
  copied (file mode size none) = file mode size none
  copied (file mode size (some body)) =
      file (mode % 512) (length (first_bytes 10485761 body)) (some (first_bytes 10485761 body))
  copied (link to) = link to
  copied (special mode content) = special mode content
  copied (dir mode entries) = dir (mode % 512) (copied_entries entries)
  copied (closed mode) = closed mode

  pub copied_entries : Entries → Entries
  copied_entries none_left = none_left
  copied_entries (entry name node rest) = entry name (copied node) (copied_entries rest)

abbrev pub IsCounted : Copied → Type 0
IsCounted c = (c.files ≤ max_managed_files) × (c.bytes ≤ max_managed_root_bytes)

account_copied_entry-IsCounted :
    (c : Copied) (size : ℕ) {c' : Copied} → account_copied_entry c size ≡ ok c' → IsCounted c'
unfolding account_copied_entry
account_copied_entry-IsCounted c size h = ground arith

take-first_bytes : (n : ℕ) (bs : Bytes) → take n bs ≡ first_bytes n bs
unfolding take first_bytes
take-first_bytes zero bs = refl
take-first_bytes (suc n) [] = refl
take-first_bytes (suc n) (b ∷ bs) = ap (λ r. b ∷ r) (take-first_bytes n bs)

copied_file-first_bytes :
    (mode : ℕ) (body : Bytes)
    → copied_file mode (copied_body body)
      ≡ file (mode % 512) (length (first_bytes 10485761 body)) (some (first_bytes 10485761 body))
unfolding copied_file copied_body
copied_file-first_bytes mode body =
    ap (λ (r : Bytes). file (mode % 512) (length r) (some r)) (take-first_bytes 10485761 body)

read_copy-copied :
    (mode size : ℕ) (content : Option Bytes) (c : Copied) {r : Node × Copied}
    → read_copy mode content c ≡ ok r
    → ((r.0) ≡ copied (file mode size content)) × ((r.1) ≡ c)
unfolding read_copy copied
read_copy-copied mode size none c h = cc
read_copy-copied mode size (some body) c h = ground (arith, h, copied_file-first_bytes mode body)

mutual
  unfolding copy_tree copied copy_file copied_link copied_dir copied_entry

  copy_tree-carries :
      (n : Node) (c : Copied) {r : Node × Copied}
      → IsCounted c
      → copy_tree n c ≡ ok r
      → ((r.0) ≡ copied n) × IsCounted (r.1)
  copy_tree-carries (file mode size content) c w h =
      let (c', counted, read) =
        >>=-eq-ok (account_copied_entry c size) (read_copy mode content) h in
      let (same, left) = read_copy-copied mode size content c' read in
      (same, subst IsCounted (sym left) (account_copied_entry-IsCounted c size counted))
  copy_tree-carries (link to) c w h =
      let (c', counted, done) = >>=-eq-ok (account_copied_entry c (len to)) (copied_link to) h in
      ground (arith, done, account_copied_entry-IsCounted c (len to) counted)
  copy_tree-carries (special mode content) c w h = cc
  copy_tree-carries (dir mode entries) c w h =
      let ((es, c'), inside, done) = >>=-eq-ok (copy_entries entries c) (copied_dir mode) h in
      let (same, counted) = copy_entries-carries entries c w inside in
      ground (arith, done, same, counted)
  copy_tree-carries (closed mode) c w h = cc

  pub copy_entries-carries :
      (es : Entries) (c : Copied) {r : Entries × Copied}
      → IsCounted c
      → copy_entries es c ≡ ok r
      → ((r.0) ≡ copied_entries es) × IsCounted (r.1)
  copy_entries-carries none_left c w h = ground (arith, w, h)
  copy_entries-carries (entry name node rest) c w h =
      let ((n, c'), first, more) =
        >>=-eq-ok (copy_tree node c) (λ (n, c'). copy_entries rest c' >>= copied_entry name n) h in
      let ((es, c''), below, done) = >>=-eq-ok (copy_entries rest c') (copied_entry name n) more in
      let (same, counted) = copy_tree-carries node c w first in
      let (same', counted') = copy_entries-carries rest c' counted below in
      ground (arith, done, same, same', counted')

-- A copy that succeeds is the tree with the permissions of each mode and, of each file, the first 10 MiB
-- and one byte; and what it has counted is within the limits, where what was counted before is.
pub copy_tree-copied :
    (n : Node) (c : Copied) {r : Node × Copied}
    → IsCounted c
    → copy_tree n c ≡ ok r
    → ((r.0) ≡ copied n) × IsCounted (r.1)
copy_tree-copied = copy_tree-carries

-- What a copy keeps whole: permissions alone, and files that are as long as Lstat says and that the
-- reader does not cut.
unfoldable mutual
  pub IsWhole : Node → Type 0
  IsWhole (file mode size none) = Unit
  IsWhole (file mode size (some body)) =
      (mode < 512) × (size ≡ length body) × (length body ≤ suc default_limits.max_file_bytes)
  IsWhole (link to) = Unit
  IsWhole (special mode content) = Unit
  IsWhole (dir mode entries) = (mode < 512) × AreWhole entries
  IsWhole (closed mode) = Unit

  pub AreWhole : Entries → Type 0
  AreWhole none_left = Unit
  AreWhole (entry name node rest) = IsWhole node × AreWhole rest

first_bytes-all : (n : ℕ) (bs : Bytes) → length bs ≤ n → first_bytes n bs ≡ bs
unfolding first_bytes
first_bytes-all zero [] h = refl
first_bytes-all zero (b ∷ bs) h = absurd (omega arith)
first_bytes-all (suc n) [] h = refl
first_bytes-all (suc n) (b ∷ bs) h = ap (λ r. b ∷ r) (first_bytes-all n bs (omega arith))

copied_file-IsWhole :
    (mode size : ℕ) (body : Bytes)
    → mode < 512
    → size ≡ length body
    → length body ≤ suc default_limits.max_file_bytes
    → copied (file mode size (some body)) ≡ file mode size (some body)
unfolding copied
copied_file-IsWhole mode size body small sized short =
    let same : first_bytes 10485761 body ≡ body = first_bytes-all 10485761 body short in
    let kept : mode % 512 ≡ mode = omega arith in rw (same, kept, sized) refl

mutual
  unfolding copied IsWhole

  pub copied-IsWhole : (n : Node) → IsWhole n → copied n ≡ n
  copied-IsWhole (file mode size none) w = refl
  copied-IsWhole (file mode size (some body)) (small, sized, short) =
      copied_file-IsWhole mode size body small sized short
  copied-IsWhole (link to) w = refl
  copied-IsWhole (special mode content) w = refl
  copied-IsWhole (dir mode entries) (small, below) =
      let kept : mode % 512 ≡ mode = omega arith in
      rw (kept, copied_entries-AreWhole entries below) refl
  copied-IsWhole (closed mode) w = refl

  pub copied_entries-AreWhole : (es : Entries) → AreWhole es → copied_entries es ≡ es
  copied_entries-AreWhole none_left w = refl
  copied_entries-AreWhole (entry name node rest) (w, ws) =
      rw (copied-IsWhole node w, copied_entries-AreWhole rest ws) refl
