-- ===== src/Skills.antt =====
-- internal/skills/package.go: the types of a scanned Skill package.
pub mod Paths
pub mod Slug
pub mod Contents
pub mod Inspect
pub mod Build
pub mod Archive
pub mod Directory
pub mod Counts
pub mod Bounds
pub mod Taken
pub mod Names
mod Tests
use toolhub.Common.{ℕ, suc, ◌+◌, ◌*◌, Char, String, Bool, Option, List, [], ◌∷◌, length}
use toolhub.Files.{Bytes}
use toolhub.Json.{Fields}

pub record Limits : Type 0 where
  pub max_archive_bytes : ℕ
  pub max_uncompressed_bytes : ℕ
  pub max_file_bytes : ℕ
  pub max_files : ℕ

abbrev pub default_limits : Limits
default_limits = record {
  max_archive_bytes = 20971520;
  max_uncompressed_bytes = 52428800;
  max_file_bytes = 10485760;
  max_files = 2000;
}

pub record Finding : Type 0 where
  pub code : String
  pub severity : String
  pub path : String
  pub message : String

pub record ScanReport : Type 0 where
  pub risk_level : String
  pub findings : List Finding
  pub file_count : ℕ
  pub size_bytes : ℕ
  pub scripts : List String
  pub executables : List String
  pub external_urls : List String
  pub allowed_tools : List String
  pub license : String

pub record Package : Type 0 where
  pub slug : String
  pub name : String
  pub description : String
  pub manifest : Fields
  pub sha256 : String
  pub content_hash : String
  pub canonical_zip : Bytes
  pub report : ScanReport

-- `entry` of the source: one file of the package.
pub record PackageFile : Type 0 where
  pub name : String
  pub mode : ℕ
  pub body : Bytes

-- A zip.File: its header, and what its reader gives, if it opens and reads without an error.
pub record ZipFile : Type 0 where
  pub name : String
  pub is_dir : Bool
  pub is_symlink : Bool
  pub mode : ℕ
  pub uncompressed_size : ℕ
  pub content : Option Bytes

-- The errors of ScanZIP and ScanDirectory.
pub data SkillError : Type 0 where
  archive_too_big bad_zip unsafe_path duplicate_path symlink too_many_files : SkillError
  file_too_big read_failed package_too_big skill_md_count outside_root : SkillError
  no_frontmatter unterminated bad_yaml bad_name zip_not_written : SkillError

-- What the package takes from Go's library and from gopkg.in/yaml.v3. `none` is an error.
pub record Library : Type 0 where
  pub open_zip : Bytes → Option (List ZipFile)
  -- archive/zip: the archive of the files, each with its permission bits and one fixed date.
  pub write_zip : List PackageFile → Option Bytes
  pub sha256_hex : Bytes → String
  -- yaml.Unmarshal into a map[string]any.
  pub unmarshal_yaml : Bytes → Option Fields
  -- regexp: Match and FindAllString of a pattern.
  pub matches : String → Bytes → Bool
  pub find_all : String → Bytes → List String
  -- url.Parse: the host, and the URL printed.
  pub parse_url : String → Option (String × String)
  -- Unicode's case tables above ASCII.
  pub unicode_lower : Char → Char
  pub unicode_upper : Char → Char

-- How many bytes the files hold.
unfoldable pub total_size : List PackageFile → ℕ
total_size [] = 0
total_size (f ∷ fs) = length f.body + total_size fs
