-- ===== src/Files.antt =====
-- A tree of files, as Go's os.Lstat, os.ReadDir, os.Readlink and os.ReadFile show it, and byte slices.
use Prim.Native.String.{String}
use toolhub.Common.{
  ℕ, zero, suc, ◌+◌, ◌/◌, ◌%◌, code, Bool, true, false, ◌&&◌, Option, List, [], ◌∷◌, ◌++◌, ltb, eqb,
  if◌then◌else◌,
}

abbrev pub Bytes : Type 0
Bytes = List ℕ

-- A mode is the bits beside the type. The size is what Lstat reports, and may differ from what is read.
mutual
  pub data Node : Type 0 where
    -- A mode, a size and the content, if it can be read.
    file : ℕ → ℕ → Option Bytes → Node
    -- The path that a symbolic link points to.
    link : String → Node
    -- A device, a pipe or a socket, with what a read of it gives.
    special : ℕ → Option Bytes → Node
    dir : ℕ → Entries → Node
    -- A directory that cannot be listed.
    closed : ℕ → Node

  -- What os.ReadDir gives, by name.
  pub data Entries : Type 0 where
    none_left : Entries
    entry : String → Node → Entries → Entries

-- fs.FileMode.Perm
abbrev pub perm : ℕ → ℕ
perm mode = mode % 512

utf8_code : ℕ → Bytes
utf8_code n =
    if ltb n 0x80
    then n ∷ []
    else if ltb n 0x800
    then (0xC0 + n / 64) ∷ (0x80 + n % 64) ∷ []
    else if ltb n 0x10000
    then (0xE0 + n / 4096) ∷ (0x80 + n / 64 % 64) ∷ (0x80 + n % 64) ∷ []
    else (0xF0 + n / 262144) ∷ (0x80 + n / 4096 % 64) ∷ (0x80 + n / 64 % 64) ∷ (0x80 + n % 64) ∷ []

-- The bytes of a Go string.
unfoldable pub utf8 : String → Bytes
unfolding utf8_code
utf8 String.[] = []
utf8 (String.◌∷◌ c s) = utf8_code (code c) ++ utf8 s

-- bytes.HasPrefix
unfoldable pub has_prefix : Bytes → Bytes → Bool
has_prefix bs [] = true
has_prefix [] (p ∷ ps) = false
has_prefix (b ∷ bs) (p ∷ ps) = eqb b p && has_prefix bs ps

-- bs[n:], and the empty slice past the end.
unfoldable pub drop : ℕ → Bytes → Bytes
drop zero bs = bs
drop (suc n) [] = []
drop (suc n) (b ∷ bs) = drop n bs

-- io.LimitReader: the first n bytes.
unfoldable pub take : ℕ → Bytes → Bytes
take zero bs = []
take (suc n) [] = []
take (suc n) (b ∷ bs) = b ∷ take n bs
