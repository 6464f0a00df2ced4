-- ===== src/Protocol/Manifest/Tests.antt =====
-- Witnesses and tests of manifest validation.
use toolhub.Common.{not, String, true, none, [], ◌∷◌, ok, ◌==◌, ◌≡◌, ◌≢◌, refl}
use toolhub.Common.Int.{pos}
use toolhub.Common.Sort.{sort_by}
use toolhub.Common.Text.{trim_space, to_lower, contains}
use toolhub.Common.Path.{clean}
use toolhub.Protocol.External.{External}
use toolhub.Protocol.Target.{
  Target, validate_target, validate_runtime, bad_managed_home, managed_username_pattern, is_sha256,
  slug_pattern, valid_id, is_protected_skill_entry, runtime_codex, runtime_hermes, node_kind_local,
}
use toolhub.Protocol.Manifest.{
  SkillMember, DesiredManifest, normalize, valid_skill, check_skills, check_mcp_servers,
  check_governance, check_scope, check_managed, validate_normal, validate_manifest,
}
use toolhub.Protocol.Manifest.Members.{
  HasMembers, validate_manifest-HasMembers, validate_manifest-replicate,
}
use toolhub.Protocol.Manifest.Scope.{
  IsScoped, validate_manifest-IsScoped, validate_manifest-ne-hermes,
}

-- Every text but the empty one counts as an identifier.
abbrev any_uuid : External
any_uuid = record {
  validate_uuid = λ s. not (s == "");
  unicode_lower = λ c. c;
  canonical_hash = λ b. none;
}

abbrev codex : Target
codex = record {
  id = "t1";
  node_id = "n1";
  node_kind = node_kind_local;
  salt_minion_id = "";
  runtime = runtime_codex;
  managed_username = "dev";
  managed_home = "/home/dev";
}

abbrev digest : String
digest = "0123456789abcdef0123456789abcdef0123456789abcdef0123456789abcdef"

abbrev skill : String → String → SkillMember
skill id name = record {
  member_id = id;
  skill_id = "s";
  version_id = "v";
  slug = name;
  sha256 = digest;
  content_hash = digest;
}

abbrev two_skills : DesiredManifest
two_skills = record {
  schema_version = pos 0;
  target = codex;
  profile_id = "p";
  profile_revision = pos 3;
  skills = skill "m2" "review" ∷ skill "m1" "lint.go" ∷ [];
  mcp_servers = [];
  managed_member_ids = "m1" ∷ "m2" ∷ [];
  relay_port = pos 0;
  relay_governance = none;
}

two_skills_accepted : validate_manifest any_uuid true two_skills ≡ ok tt
unfolding validate_manifest normalize sort_by validate_normal check_governance check_scope
    check_skills check_mcp_servers check_managed valid_skill validate_target validate_runtime
    bad_managed_home managed_username_pattern is_sha256 slug_pattern valid_id
    is_protected_skill_entry trim_space to_lower clean contains
two_skills_accepted = refl

validate_manifest-HasMembers_example : HasMembers two_skills
validate_manifest-HasMembers_example =
    validate_manifest-HasMembers any_uuid two_skills true two_skills_accepted

validate_manifest-replicate_example :
    validate_manifest any_uuid true (record two_skills { managed_member_ids = "m2" ∷ "m2" ∷ [] })
    ≡ ok tt
validate_manifest-replicate_example =
    validate_manifest-replicate any_uuid two_skills true "m2" two_skills_accepted refl

validate_manifest-IsScoped_example :
    (validate_target any_uuid true codex ≡ none) × IsScoped two_skills
validate_manifest-IsScoped_example =
    validate_manifest-IsScoped any_uuid true two_skills two_skills_accepted

validate_manifest-ne-hermes_example : runtime_codex ≢ runtime_hermes
validate_manifest-ne-hermes_example =
    validate_manifest-ne-hermes any_uuid two_skills two_skills_accepted
