-- ===== src/Skills/Build.antt =====
-- internal/skills/package.go: buildPackage, canonicalZIP and canonicalContentHash.
use Prim.Native.String.{◌++◌ as concat}
use toolhub.Common.{
  ℕ, ◌/◌, ◌%◌, String, len, ◌||◌, none, some, List, [], ◌∷◌, ◌++◌, Result, ok, err, ◌>>=◌, length,
  ltb, ◌==◌, if◌then◌else◌,
}
use toolhub.Common.Text.{trim_space}
use toolhub.Common.Sort.{sort_by}
use toolhub.Common.Decimal.{decimal, digit}
use toolhub.Files.{Bytes, utf8, perm}
use toolhub.Json.{Fields, lookup_field}
use toolhub.Skills.{PackageFile, Package, SkillError, Library}
use toolhub.Skills.Contents.{skill_md, normalize_root, parse_frontmatter}
use toolhub.Skills.Inspect.{inspect, string_value}
use toolhub.Skills.Slug.{slugify}

-- %04o of permission bits
unfoldable pub octal : ℕ → String
octal mode = String.◌∷◌ (digit 0) (
    String.◌∷◌ (digit (mode / 64 % 8))
      (String.◌∷◌ (digit (mode / 8 % 8)) (String.◌∷◌ (digit (mode % 8)) String.[])))

-- What canonicalContentHash writes for one file, and for all.
unfoldable pub file_stream : PackageFile → Bytes
file_stream f =
    utf8 (concat (decimal (len f.name)) ":")
    ++ (utf8 f.name
        ++ (utf8 (
              concat ":"
                (concat (octal (perm f.mode)) (concat ":" (concat (decimal (length f.body)) ":"))))
            ++ f.body))

unfoldable pub content_stream : List PackageFile → Bytes
content_stream [] = []
content_stream (f ∷ fs) = file_stream f ++ content_stream fs

abbrev by_name : List PackageFile → List PackageFile
by_name = sort_by (λ f. f.name)

-- The content of the first file at the root that is named SKILL.md.
unfoldable pub skill_body : List PackageFile → Bytes
skill_body [] = []
skill_body (f ∷ fs) = let rest = skill_body fs in if f.name == skill_md then f.body else rest

-- The name that the frontmatter gives, trimmed.
unfoldable pub name_of : Fields → Result SkillError String
name_of manifest =
    let name = trim_space (string_value (lookup_field "name" manifest)) in
    if name == "" || ltb 120 (len name) then err SkillError.bad_name else ok name

module _ (lib : Library) where
  open lib use {write_zip, sha256_hex, unicode_lower}

  unfoldable pub canonical_content_hash : List PackageFile → String
  canonical_content_hash files = sha256_hex (content_stream (by_name files))

  unfoldable pub package_of : List PackageFile → Fields → String → Bytes → Package
  package_of files manifest name canonical = record {
    slug = slugify unicode_lower name;
    name = name;
    description = trim_space (string_value (lookup_field "description" manifest));
    manifest = manifest;
    sha256 = sha256_hex canonical;
    content_hash = canonical_content_hash files;
    canonical_zip = canonical;
    report = inspect lib files manifest;
  }

  unfoldable pub canonical_zip_of : List PackageFile → Result SkillError Bytes
  canonical_zip_of files = elim (write_zip (by_name files)) [
    | none ↦ err SkillError.zip_not_written
    | some canonical ↦ ok canonical
  ]

  -- The steps of buildPackage, the last first.
  unfoldable pub name_package : List PackageFile → Fields → String → Result SkillError Package
  name_package files manifest name =
      canonical_zip_of files >>= λ canonical. ok (package_of files manifest name canonical)

  unfoldable pub describe : List PackageFile → Fields → Result SkillError Package
  describe files manifest = name_of manifest >>= name_package files manifest

  unfoldable pub read_manifest : List PackageFile → Result SkillError Package
  read_manifest files = parse_frontmatter lib (skill_body files) >>= describe files

  -- buildPackage
  unfoldable pub build_package : List PackageFile → Result SkillError Package
  build_package files = normalize_root files >>= read_manifest
