-- ===== src/Skills/Contents.antt =====
-- internal/skills/package.go: normalizeRoot, parseFrontmatter, inspect and canonicalContentHash.
use Prim.Native.String.{◌++◌ as concat}
use toolhub.Common.{
  String, true, false, not, ◌&&◌, Option, none, some, List, [], ◌∷◌, Result, ok, err, ◌>>=◌, eqb,
  ◌==◌, starts_with, if◌then◌else◌,
}
use toolhub.Files.{Bytes, has_prefix, drop}
use toolhub.Json.{Fields}
use toolhub.Skills.{PackageFile, SkillError, Library}
use toolhub.Skills.Paths.{base, dir_name, trim_prefix}

abbrev pub skill_md : String
skill_md = "SKILL.md"

-- The paths whose last part is SKILL.md.
unfoldable pub skill_paths : List PackageFile → List String
skill_paths [] = []
skill_paths (f ∷ fs) = if base f.name == "SKILL.md" then f.name ∷ skill_paths fs else skill_paths fs

-- The loop that takes the package root off each name.
unfoldable pub strip_root : String → List PackageFile → Result SkillError (List PackageFile)
strip_root prefix [] = ok []
strip_root prefix (f ∷ fs) =
    if not (starts_with f.name prefix)
    then err SkillError.outside_root
    else strip_root prefix fs >>= λ rest. ok (record f { name = trim_prefix f.name prefix } ∷ rest)

unfoldable pub strip_below : String → List PackageFile → Result SkillError (List PackageFile)
strip_below root files = if root == "." then ok files else strip_root (concat root "/") files

-- The package root is the directory of the only SKILL.md.
unfoldable pub below_only : List String → List PackageFile → Result SkillError (List PackageFile)
below_only (only ∷ []) files = strip_below (dir_name only) files
below_only _ files = err SkillError.skill_md_count

-- normalizeRoot
unfoldable pub normalize_root : List PackageFile → Result SkillError (List PackageFile)
normalize_root files = below_only (skill_paths files) files

-- ReplaceAll of "\r\n" by "\n"
unix_lines : Bytes → Bytes
unix_lines [] = []
unix_lines (b ∷ bs) =
    let rest = unix_lines bs in if eqb b 13 && has_prefix bs (10 ∷ []) then rest else b ∷ rest

-- What stands before the first occurrence: text[:strings.Index(text, mark)].
before : Bytes → Bytes → Option Bytes
before mark [] = none
before mark (b ∷ bs) = elim (has_prefix (b ∷ bs) mark) [
  | true ↦ some []
  | false ↦ elim (before mark bs) [ none ↦ none | some rest ↦ some (b ∷ rest) ]
]

module _ (lib : Library) where
  open lib use {unmarshal_yaml, matches, find_all, parse_url, unicode_lower, unicode_upper}

  -- parseFrontmatter
  unfoldable pub parse_frontmatter : Bytes → Result SkillError Fields
  unfolding unix_lines before
  parse_frontmatter body =
      let text = unix_lines body in
      if not (has_prefix text (45 ∷ 45 ∷ 45 ∷ 10 ∷ []))
      then err SkillError.no_frontmatter
      else elim (before (10 ∷ 45 ∷ 45 ∷ 45 ∷ 10 ∷ []) (drop 4 text)) [
        | none ↦ err SkillError.unterminated
        | some yaml ↦ elim (unmarshal_yaml yaml) [
          | none ↦ err SkillError.bad_yaml
          | some manifest ↦ ok manifest
        ]
      ]
