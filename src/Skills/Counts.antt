-- ===== src/Skills/Counts.antt =====
-- What the report of a package counts: the files it is built from and their bytes.
use Prim.Native.String.{◌++◌ as concat}
use toolhub.Common.{
  String, List, [], ◌∷◌, ok, >>=-eq-ok, Result-cases, Bool-cases, length, ◌==◌, ◌≡◌, refl, ap, ◌∙◌,
  subst, inl, inr, arith,
}
use toolhub.Files.{Bytes}
use toolhub.Json.{Fields}
use toolhub.Skills.{Library, Package, PackageFile, total_size}
use toolhub.Skills.Paths.{dir_name}
use toolhub.Skills.Contents.{
  skill_paths, strip_root, strip_below, below_only, normalize_root, parse_frontmatter,
}
use toolhub.Skills.Build.{
  skill_body, name_of, canonical_zip_of, package_of, name_package, describe, read_manifest,
  build_package,
}
use toolhub.Skills.Inspect.{inspect}

abbrev Counts : List PackageFile → List PackageFile → Type 0
Counts gs fs = (length gs ≡ length fs) × (total_size gs ≡ total_size fs)

-- Taking the root off the names changes neither the number of the files nor their bytes.
strip_root-Counts :
    (prefix : String) (fs : List PackageFile) {gs : List PackageFile}
    → strip_root prefix fs ≡ ok gs
    → Counts gs fs
unfolding strip_root total_size
strip_root-Counts prefix [] h = ground (arith, h)
strip_root-Counts prefix (f ∷ fs) h = elim (Result-cases (strip_root prefix fs)) [
  | inl (e, q) ↦ absurd (ground (arith, h, q))
  | inr (rest, q) ↦
      let (count, total) = strip_root-Counts prefix fs q in ground (arith, h, q, count, total)
]

below_only-Counts :
    (paths : List String) (fs : List PackageFile) {gs : List PackageFile}
    → below_only paths fs ≡ ok gs
    → Counts gs fs
unfolding below_only strip_below
below_only-Counts [] fs h = absurd (ground (arith, h))
below_only-Counts (only ∷ []) fs h = elim (Bool-cases (dir_name only == ".")) [
  | inl e ↦ subst (λ gs. Counts gs fs) (ground (arith, h, e)) (refl, refl)
  | inr e ↦ strip_root-Counts (concat (dir_name only) "/") fs (rw e at h)
]
below_only-Counts (only ∷ second ∷ more) fs h = absurd (ground (arith, h))

-- What a built package is made of.
pub build_package-steps :
    (lib : Library) (fs : List PackageFile) {p : Package}
    → build_package lib fs ≡ ok p
    → (files : List PackageFile) × (manifest : Fields) × (name : String) × (canonical : Bytes)
      × (normalize_root fs ≡ ok files)
      × (name_of manifest ≡ ok name)
      × (p ≡ package_of lib files manifest name canonical)
unfolding build_package read_manifest describe name_package
build_package-steps lib fs {p} h =
    let (files, normal, h1) = >>=-eq-ok (normalize_root fs) (read_manifest lib) h in
    let (manifest, parsed, h2) =
      >>=-eq-ok (parse_frontmatter lib (skill_body files)) (describe lib files) h1 in
    let (name, named, h3) = >>=-eq-ok (name_of manifest) (name_package lib files manifest) h2 in
    let (canonical, zipped, h4) =
      >>=-eq-ok (canonical_zip_of lib files)
        (λ canonical. ok (package_of lib files manifest name canonical)) h3 in
    let same : p ≡ package_of lib files manifest name canonical = cc in
    (files, manifest, name, canonical, normal, named, same)

pub build_package-counts :
    (lib : Library) (fs : List PackageFile) {p : Package}
    → build_package lib fs ≡ ok p
    → (p.report.file_count ≡ length fs) × (p.report.size_bytes ≡ total_size fs)
unfolding package_of inspect normalize_root
build_package-counts lib fs {p} h =
    let (files, manifest, name, canonical, normal, named, same) = build_package-steps lib fs h in
    let (count, total) = below_only-Counts (skill_paths fs) fs normal in
    (
      ap (λ (q : Package). q.report.file_count) same ∙ count,
      ap (λ (q : Package). q.report.size_bytes) same ∙ total,
    )
