-- ===== src/Runtime/Paths.antt =====
-- internal/runtime/paths.go: the paths of a target, and ensureWithin.
use Prim.Native.String.{◌++◌ as concat}
use toolhub.Common.{
  ℕ, String, Bool, not, ◌||◌, Option, none, some, List, [], ◌∷◌, all, Result, ok, err, ◌==◌,
  starts_with, if◌then◌else◌,
}
use toolhub.Common.Path.{is_abs, clean}
use toolhub.Protocol.Errors.{Error, plain}
use toolhub.Protocol.Target.{runtime_claude, runtime_codex, runtime_hermes, runtime_shared_relay}

pub record ManagedUser : Type 0 where
  pub name : String
  pub home : String
  pub uid : ℕ
  pub gid : ℕ

pub record TargetPaths : Type 0 where
  pub home : String
  pub skills_root : String
  pub claude_config : String
  pub codex_config : String
  pub hermes_config : String
  pub mcpm_registry : String
  pub routing_file : String

-- filepath.Join of a directory and what lies below it
abbrev join : String → String → String
join base rest = clean (concat base (concat "/" rest))

-- ensureWithin, for absolute paths: filepath.Rel of a clean path to another begins with ".." where the
-- second is neither the first nor below it.
unfoldable pub is_within : String → String → Bool
is_within root candidate =
    let r = clean root in
    let c = clean candidate in c == r || r == "/" || starts_with c (concat r "/")

skills_dir : String → String → Option String
skills_dir home runtime =
    if runtime == runtime_claude
    then some (join home ".claude/skills")
    else if runtime == runtime_codex
    then some (join home ".codex/skills")
    else if runtime == runtime_hermes
    then some (join home ".hermes/skills")
    else if runtime == runtime_shared_relay
    then some ""
    else none

unfoldable pub candidates : TargetPaths → List String
candidates p =
    p.skills_root ∷ p.claude_config ∷ p.codex_config ∷ p.hermes_config ∷ p.mcpm_registry
    ∷ p.routing_file ∷ []

paths_at : String → String → TargetPaths
paths_at home skills = record {
  home = home;
  skills_root = skills;
  claude_config = join home ".claude.json";
  codex_config = join home ".codex/config.toml";
  hermes_config = join home ".hermes/config.yaml";
  mcpm_registry = join home ".config/mcpm/servers.json";
  routing_file = join home ".config/mcpm/toolhub-routing.json";
}

checked_paths : TargetPaths → Result Error TargetPaths
checked_paths p =
    if all (λ c. c == "" || is_within p.home c) (candidates p)
    then ok p
    else err (plain "managed path escapes user home")

-- PathsFor
unfoldable pub paths_for : ManagedUser → String → Result Error TargetPaths
unfolding skills_dir paths_at checked_paths
paths_for user runtime =
    if not (is_abs user.home) || clean user.home == "/"
    then err (plain "managed user home is unsafe")
    else elim (skills_dir user.home runtime) [
      | none ↦ err (plain "unsupported target runtime")
      | some skills ↦ checked_paths (paths_at user.home skills)
    ]
