-- ===== src/Skills/Tests.antt =====
-- Runs on small packages, and the theorems at them.
use toolhub.Common.Text.{trim_space, to_lower, contains}
use toolhub.Common.Path.{clean}
use toolhub.Common.Decimal.{digits, decimal}
use toolhub.Common.{true, false, none, some, [], ◌∷◌, ◌++◌, length, ok, err, ◌≡◌, refl, ◌≤◌}
use toolhub.Files.{Bytes, Node, utf8, has_prefix, drop, take}
use toolhub.Files.Node.{file, link, dir}
use toolhub.Files.Entries.{none_left, entry}
use toolhub.Json.{Json, Fields, lookup_field}
use toolhub.Protocol.Target.{slug_pattern}
use toolhub.Skills.{default_limits, Library, Package, PackageFile, SkillError, ZipFile, total_size}
use toolhub.Skills.Paths.{safe_archive_path, base, parent, dir_name, ext, trim_prefix}
use toolhub.Skills.Slug.{dash_runs, trim_left_dash, trim_right_dash, slugify}
use toolhub.Skills.Inspect.{string_list, string_value}
use toolhub.Skills.Contents.{
  parse_frontmatter, skill_paths, strip_root, strip_below, below_only, normalize_root,
}
use toolhub.Skills.Build.{
  octal, file_stream, package_of, skill_body, name_of, canonical_zip_of, name_package, describe,
  read_manifest, build_package,
}
use toolhub.Skills.Archive.{
  open_archive, check_header, read_zip_file, add_file, take_file, take_files, scan_zip,
}
use toolhub.Skills.Directory.{is_compiled, walk_node, walk_root, scan_directory}
use toolhub.Common.{All, List}
use toolhub.Skills.Taken.{IsTaken, file_number, file_bytes}
use toolhub.Skills.Bounds.{scan_zip-limits}
use toolhub.Skills.Names.{build_package-slug_pattern}

abbrev frontmatter : Bytes
frontmatter = utf8 "---\nname: Code Review!\n---\nText"

abbrev archive_file : ZipFile
archive_file = record {
  name = "review/SKILL.md";
  is_dir = false;
  is_symlink = false;
  mode = 420;
  uncompressed_size = 31;
  content = some frontmatter;
}

abbrev zipped : Bytes
zipped = 1 ∷ []

-- A library whose only archive holds one file.
abbrev lib : Library
lib = record {
  open_zip = λ _. some (archive_file ∷ []);
  write_zip = λ _. some (1 ∷ []);
  sha256_hex = λ _. "ab";
  unmarshal_yaml = λ _. some (Fields.field "name" (Json.str "Code Review!") Fields.end);
  matches = λ _ _. false;
  find_all = λ _ _. [];
  parse_url = λ _. none;
  unicode_lower = λ c. c;
  unicode_upper = λ c. c;
}

paths_run :
    (safe_archive_path "a/b.md" ≡ some "a/b.md")
    × (safe_archive_path "../b" ≡ none)
    × (safe_archive_path "a/../b" ≡ none)
    × (safe_archive_path "/etc" ≡ none)
    × (base "a/b/SKILL.md" ≡ "SKILL.md")
    × (dir_name "a/b/SKILL.md" ≡ "a/b")
    × (dir_name "SKILL.md" ≡ ".")
    × (ext "a.b/c.tar.gz" ≡ ".gz")
    × (ext "a.b/c" ≡ "")
unfolding safe_archive_path base dir_name parent ext clean contains
paths_run = (refl, refl, refl, refl, refl, refl, refl, refl, refl)

slugs_run :
    (slugify (λ c. c) " Code  Review! " ≡ "code-review")
    × (slugify (λ c. c) "--" ≡ "skill")
    × (slugify (λ c. c) "A_b.C" ≡ "a-b-c")
unfolding slugify dash_runs trim_left_dash trim_right_dash trim_space to_lower
slugs_run = (refl, refl, refl)

string_list_run :
    (string_list (some (Json.str "Read, Write")) ≡ ("Read" ∷ "Write" ∷ []))
    × (string_list (some (Json.bool true)) ≡ [])
unfolding string_list
string_list_run = (refl, refl)

file_stream_run :
    file_stream (record { name = "a.md"; mode = 33188; body = 7 ∷ [] })
    ≡ utf8 "4:a.md:0644:1:" ++ (7 ∷ [])
unfolding file_stream octal decimal digits utf8
file_stream_run = refl

-- The file as it stands in the package, with the root taken off its name.
abbrev skill_file : PackageFile
skill_file = record { name = "SKILL.md"; mode = 420; body = frontmatter }

abbrev manifest : Fields
manifest = Fields.field "name" (Json.str "Code Review!") Fields.end

abbrev built : Package
built = package_of lib (skill_file ∷ []) manifest "Code Review!" (1 ∷ [])

build_package_run :
    build_package lib (record skill_file { name = "review/SKILL.md" } ∷ []) ≡ ok built
unfolding build_package read_manifest describe name_package canonical_zip_of name_of skill_body
    parse_frontmatter has_prefix drop utf8 normalize_root below_only skill_paths strip_below
    strip_root base dir_name parent trim_prefix lookup_field string_value trim_space contains
build_package_run = refl

scan_zip_run : scan_zip lib default_limits zipped ≡ ok built
unfolding scan_zip open_archive take_files take_file check_header read_zip_file add_file total_size
    safe_archive_path contains clean take utf8
scan_zip_run = build_package_run

-- A compiled file and a cache stand beside the text.
abbrev skill_dir : Node
skill_dir = dir 493 (
    entry "SKILL.md" (file 420 31 (some frontmatter)) (
      entry "__pycache__" (dir 493 (entry "x" (link "/etc") none_left))
        (entry "m.pyc" (file 420 1 none) none_left)))

built_at_root : build_package lib (skill_file ∷ []) ≡ ok built
unfolding build_package read_manifest describe name_package canonical_zip_of name_of skill_body
    parse_frontmatter has_prefix drop utf8 normalize_root below_only skill_paths strip_below base
    dir_name parent lookup_field string_value trim_space contains
built_at_root = refl

-- A link anywhere else refuses the directory.
linked_run :
    scan_directory lib default_limits (dir 493 (entry "a" (link "/etc/passwd") none_left))
    ≡ err SkillError.symlink
unfolding scan_directory walk_root walk_node is_compiled ext to_lower
linked_run = refl

scan_zip-limits_example :
    (length zipped ≤ 20971520)
    × ((files : List ZipFile) × (lib.open_zip zipped ≡ some files)
        × All (IsTaken default_limits) files
        × (built.report.file_count ≡ file_number files)
        × (file_number files ≤ 2000)
        × (built.report.size_bytes ≡ file_bytes files)
        × (file_bytes files ≤ 52428800))
scan_zip-limits_example = scan_zip-limits lib default_limits zipped built scan_zip_run

build_package-slug_pattern_example : slug_pattern built.slug ≡ true
build_package-slug_pattern_example =
    build_package-slug_pattern lib (skill_file ∷ []) built built_at_root
