-- ===== src/Protocol/Governance/Tests.antt =====
-- Witnesses and tests of routing bundles.
use toolhub.Common.{
  not, String, true, false, none, some, [], ◌∷◌, All, IsUnique, ok, err, ◌==◌, ◌≡◌, refl,
}
use toolhub.Common.Text.{trim_space}
use toolhub.Json.{end}
use toolhub.Protocol.External.{External}
use toolhub.Protocol.Target.{is_sha256, runtime_codex}
use toolhub.Protocol.Bundle.{RoutingTool, ServerContract, PublishedProfile, RoutingBundle}
use toolhub.Protocol.Governance.{
  valid_governance_name, valid_governance_decision, decision_rank, find_routing_server,
  find_routing_tool, same_optional, same_nil, check_tools, check_server, check_servers,
  check_overrides, check_rules, loosens, is_pinned, check_profile_server, check_profile_servers,
  check_profile, check_profiles, check_metadata, check_totals, validate_bundle, loosened_rule,
}
use toolhub.Protocol.Governance.Laws.{IsServed, validate_bundle-IsServed}
use toolhub.Protocol.Governance.Names.{runtime_names, validate_bundle-IsUnique}

abbrev any_uuid : External
any_uuid = record {
  validate_uuid = λ s. not (s == "");
  unicode_lower = λ c. c;
  canonical_hash = λ b. none;
}

abbrev digest : String
digest = "0123456789abcdef0123456789abcdef0123456789abcdef0123456789abcdef"

abbrev tool : String → String → RoutingTool
tool name decision = record {
  tool_id = name;
  name = name;
  input_schema = end;
  output_schema = end;
  annotations = end;
  global_decision = decision;
  reason_codes = [];
  paused = false;
}

abbrev server : String → ServerContract
server name = record {
  server_id = name;
  server_name = name;
  mcp_config_revision_id = "r1";
  accepted_contract_revision_id = some "c1";
  accepted_contract_hash = some digest;
  tools = tool "read" "allow" ∷ tool "write" "confirm" ∷ [];
}

abbrev profile : String → PublishedProfile
profile decision = record {
  profile_id = "p1";
  profile_revision_id = "p1r";
  profile_revision_hash = digest;
  profile_name = "daily";
  client_kind = runtime_codex;
  servers =
      record {
        server_id = "git";
        mcp_config_revision_id = "r1";
        accepted_contract_revision_id = some "c1";
        visibility_mode = "selected";
        tool_overrides = record { tool_id = "read"; visible = true } ∷ [];
        tool_rules = record { tool_id = "write"; decision = decision } ∷ [];
      }
      ∷ [];
}

abbrev bundle : String → RoutingBundle
bundle decision = record {
  schema_version = 1;
  mode = "enforced";
  relay_configuration_revision_id = "rc";
  relay_configuration_hash = digest;
  global_policy_revision_id = "gp";
  global_policy_hash = digest;
  default_profile_id = some "p1";
  servers = server "git" ∷ server "files" ∷ [];
  profiles = profile decision ∷ [];
}

strict_accepted : validate_bundle any_uuid (bundle "deny") ≡ ok tt
unfolding validate_bundle check_metadata check_servers check_server check_tools check_profiles
    check_profile check_profile_servers check_profile_server check_overrides check_rules
    check_totals loosens is_pinned same_optional same_nil find_routing_server find_routing_tool
    decision_rank valid_governance_name valid_governance_decision is_sha256 trim_space
strict_accepted = refl

-- `allow` on a tool that is globally `confirm`.
loose_refused : validate_bundle any_uuid (bundle "allow") ≡ err loosened_rule
unfolding validate_bundle check_metadata check_servers check_server check_tools check_profiles
    check_profile check_profile_servers check_profile_server check_overrides check_rules
    check_totals loosens is_pinned same_optional same_nil find_routing_server find_routing_tool
    decision_rank valid_governance_name valid_governance_decision is_sha256 trim_space
loose_refused = refl

validate_bundle-IsServed_example :
    All (IsServed "enforced" (bundle "deny").servers) (bundle "deny").profiles
validate_bundle-IsServed_example = validate_bundle-IsServed any_uuid (bundle "deny") strict_accepted

validate_bundle-IsUnique_example : IsUnique (runtime_names true (bundle "deny").servers)
validate_bundle-IsUnique_example = validate_bundle-IsUnique any_uuid (bundle "deny") strict_accepted
