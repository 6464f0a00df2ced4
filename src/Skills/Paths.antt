-- ===== src/Skills/Paths.antt =====
-- internal/skills/package.go: safeArchivePath, and the parts of Go's `path` for names that it accepts.
use Prim.Native.String.{◌++◌ as concat}
use toolhub.Common.{
  code, String, not, ◌&&◌, ◌||◌, Option, none, some, ◌==◌, eqb, starts_with, if◌then◌else◌,
}
use toolhub.Common.Text.{contains}
use toolhub.Common.Path.{is_abs, clean}

abbrev nul_text : String
nul_text = String.◌∷◌ Prim.Native.Char.nul String.[]

unfoldable pub safe_archive_path : String → Option String
safe_archive_path name =
    if name == "" || contains name "\\" || contains name nul_text || is_abs name
    then none
    else let cleaned = clean name in
      if cleaned == "." || cleaned == ".." || starts_with cleaned "../" || not (cleaned == name)
      then none
      else some cleaned

-- strings.TrimPrefix
unfoldable pub trim_prefix : String → String → String
trim_prefix s String.[] = s
trim_prefix String.[] (String.◌∷◌ p ps) = String.[]
trim_prefix (String.◌∷◌ c s) (String.◌∷◌ p ps) = trim_prefix s ps

-- path.Base of a clean path
unfoldable pub base : String → String
base String.[] = String.[]
base (String.◌∷◌ c s) =
    let rest = base s in if eqb (code c) b'/' || contains s "/" then rest else String.◌∷◌ c s

-- The path up to its last slash; `none` where there is no slash.
unfoldable pub parent : String → Option String
parent String.[] = none
parent (String.◌∷◌ c s) =
    let rest = parent s in
    elim rest [
      | some p ↦ some (String.◌∷◌ c p)
      | none ↦ if eqb (code c) b'/' then some "" else none
    ]

-- path.Dir of a clean path
unfoldable pub dir_name : String → String
dir_name s = elim (parent s) [ none ↦ "." | some p ↦ p ]

-- path.Ext and filepath.Ext
unfoldable pub ext : String → String
ext String.[] = String.[]
ext (String.◌∷◌ c s) =
    let rest = ext s in
    if not (rest == "")
    then rest
    else if eqb (code c) b'.' && not (contains s "/")
    then String.◌∷◌ c s
    else String.[]

-- A path below a directory; the directory itself is the empty path.
unfoldable pub join : String → String → String
join prefix name = if prefix == "" then name else concat prefix (concat "/" name)
