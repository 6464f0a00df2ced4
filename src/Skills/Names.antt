-- ===== src/Skills/Names.antt =====
-- internal/skills/package.go with internal/bridgeprotocol/types.go: a package's slug in a manifest.
use toolhub.Common.{
  ◌≤◌, true, String, len, List, ok, ◌≡◌, ap, ◌∙◌, arith, ltb, ◌||◌, ◌==◌, Bool-cases, inl, inr,
}
use toolhub.Common.Text.{trim_space}
use toolhub.Common.Text.Count.{count-len}
use toolhub.Json.{Fields, lookup_field}
use toolhub.Protocol.Target.{slug_pattern}
use toolhub.Skills.{Library, Package, PackageFile}
use toolhub.Skills.Build.{name_of, package_of, build_package}
use toolhub.Skills.Counts.{build_package-steps}
use toolhub.Skills.Inspect.{string_value}
use toolhub.Skills.Slug.Shape.{slug_pattern-slugify}

-- A name has at most 120 bytes.
name_of-len : (manifest : Fields) {name : String} → name_of manifest ≡ ok name → len name ≤ 120
unfolding name_of
name_of-len manifest h =
    let name = trim_space (string_value (lookup_field "name" manifest)) in
    elim (Bool-cases (name == "" || ltb 120 (len name))) [
      | inl e ↦ absurd (ground (arith, e, h))
      | inr e ↦ ground (arith, e, h)
    ]

-- The slug of every package that is built matches the pattern that the manifest's validation asks of a
-- slug.
pub build_package-slug_pattern :
    (lib : Library) (files : List PackageFile) (p : Package)
    → build_package lib files ≡ ok p
    → slug_pattern p.slug ≡ true
unfolding package_of
build_package-slug_pattern lib files p h =
    let (normal, manifest, name, canonical, rooted, named, same) =
      build_package-steps lib files h in
    ap (λ (q : Package). slug_pattern q.slug) same
    ∙ slug_pattern-slugify lib.unicode_lower name
        (omega (arith, count-len name, name_of-len manifest named))
