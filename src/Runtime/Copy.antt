-- ===== src/Runtime/Copy.antt =====
-- internal/runtime/manager.go: copyTree and accountCopiedEntry.
pub mod Faithful
use toolhub.Common.{
  ℕ, suc, ◌+◌, String, len, Bool, ◌||◌, Option, none, some, List, [], ◌∷◌, Result, ok, err, ◌>>=◌,
  length, ltb, if◌then◌else◌,
}
use toolhub.Files.{Bytes, Node, Entries, perm, take}
use toolhub.Files.Node.{file, link, special, dir, closed}
use toolhub.Files.Entries.{none_left, entry}
use toolhub.Protocol.Errors.{Error, plain}
use toolhub.Skills.{default_limits}

abbrev pub max_managed_root_bytes : ℕ
max_managed_root_bytes = 268435456

abbrev pub max_managed_files : ℕ
max_managed_files = 10000

-- How many entries and bytes are copied.
pub record Copied : Type 0 where
  pub files : ℕ
  pub bytes : ℕ

-- accountCopiedEntry
unfoldable pub account_copied_entry : Copied → ℕ → Result Error Copied
account_copied_entry c size =
    let counted : Copied = record { files = suc c.files; bytes = c.bytes + size } in
    if ltb max_managed_files counted.files || ltb max_managed_root_bytes counted.bytes
    then err (plain "managed root exceeds copy safety limits")
    else ok counted

-- io.LimitReader with one byte more than a file of a Skill may have.
unfoldable pub copied_body : Bytes → Bytes
copied_body = take (suc default_limits.max_file_bytes)

unfoldable pub copied_file : ℕ → Bytes → Node
copied_file mode body = file (perm mode) (length body) (some body)

-- What is read of a file that opens.
unfoldable pub read_copy : ℕ → Option Bytes → Copied → Result Error (Node × Copied)
read_copy mode none c = err (plain "open")
read_copy mode (some body) c = ok (copied_file mode (copied_body body), c)

unfoldable pub copy_file : ℕ → ℕ → Option Bytes → Copied → Result Error (Node × Copied)
copy_file mode size content c = account_copied_entry c size >>= read_copy mode content

-- A link that is made again, a directory with the permissions of its source, an entry before others.
unfoldable pub copied_link : String → Copied → Result Error (Node × Copied)
copied_link to c = ok (link to, c)

unfoldable pub copied_dir : ℕ → Entries × Copied → Result Error (Node × Copied)
copied_dir mode (es, c) = ok (dir (perm mode) es, c)

unfoldable pub copied_entry : String → Node → Entries × Copied → Result Error (Entries × Copied)
copied_entry name n (es, c) = ok (entry name n es, c)

unfoldable mutual
  -- copyTree
  pub copy_tree : Node → Copied → Result Error (Node × Copied)
  copy_tree (file mode size content) c = copy_file mode size content c
  copy_tree (link to) c = account_copied_entry c (len to) >>= copied_link to
  copy_tree (special mode content) c = err (plain "unsafe file type in managed root")
  copy_tree (dir mode entries) c = copy_entries entries c >>= copied_dir mode
  copy_tree (closed mode) c = err (plain "read directory")

  pub copy_entries : Entries → Copied → Result Error (Entries × Copied)
  copy_entries none_left c = ok (none_left, c)
  copy_entries (entry name node rest) c =
      copy_tree node c >>= λ (n, c'). copy_entries rest c' >>= copied_entry name n
