-- ===== src/Protocol/Canary/Tests.antt =====
-- A witness and tests of the session canary.
use toolhub.Common.{String, true, false, none, some, List, [], ◌∷◌, ◌≡◌, refl}
use toolhub.Common.Text.{all_chars, trim_space}
use toolhub.Common.Sort.{sort_by}
use toolhub.Common.Int.{pos}
use toolhub.Json.{end}
use toolhub.Protocol.Bundle.{RoutingTool, ServerContract, PublishedProfile, RoutingBundle}
use toolhub.Protocol.Target.{is_sha256, runtime_claude, runtime_codex}
use toolhub.Protocol.Canary.{
  CanaryResponse, RelayCapabilityResponse, relay_enforcement_features, is_count, is_version_text,
  relay_enforcement_capability_compatible, find_profile_server, visible_by, decision_by, is_offered,
  count_tools, server_tool_count, tool_count_of, relay_canary_tool_count, default_count_of,
  relay_canary_default_tool_count, of_kind, first_profile, expected_profile, is_expected,
  check_canary_profiles, bad_missing, check_processes, check_upstream, check_after_profiles,
  check_canary, validate_canary_response,
}
use toolhub.Protocol.Canary.Offered.{IsLeastOfKind}
use toolhub.Protocol.Canary.Expected.{expected_response, validate_canary_response-none}

abbrev digest : String
digest = "0123456789abcdef0123456789abcdef0123456789abcdef0123456789abcdef"

abbrev tool : String → RoutingTool
tool name = record {
  tool_id = name;
  name = name;
  input_schema = end;
  output_schema = end;
  annotations = end;
  global_decision = "allow";
  reason_codes = [];
  paused = false;
}

abbrev server : ServerContract
server = record {
  server_id = "git";
  server_name = "git";
  mcp_config_revision_id = "r1";
  accepted_contract_revision_id = some "c1";
  accepted_contract_hash = some digest;
  tools = tool "read" ∷ tool "write" ∷ [];
}

-- A profile that denies one of the two tools.
abbrev profile : String → String → PublishedProfile
profile id kind = record {
  profile_id = id;
  profile_revision_id = "r";
  profile_revision_hash = digest;
  profile_name = id;
  client_kind = kind;
  servers =
      record {
        server_id = "git";
        mcp_config_revision_id = "r1";
        accepted_contract_revision_id = some "c1";
        visibility_mode = "all_accepted";
        tool_overrides = [];
        tool_rules = record { tool_id = "write"; decision = "deny" } ∷ [];
      }
      ∷ [];
}

abbrev bundle : RoutingBundle
bundle = record {
  schema_version = 1;
  mode = "enforced";
  relay_configuration_revision_id = "rc";
  relay_configuration_hash = digest;
  global_policy_revision_id = "gp";
  global_policy_hash = digest;
  default_profile_id = none;
  servers = server ∷ [];
  profiles =
      profile "p2" runtime_codex ∷ profile "p1" runtime_codex ∷ profile "p3" runtime_claude ∷ [];
}

abbrev response : CanaryResponse
response = record {
  routing_bundle_hash = digest;
  profiles =
      record {
        client_kind = runtime_claude;
        profile_id = "p3";
        profile_revision_id = "r";
        tool_count = pos 1;
      }
      ∷ record {
        client_kind = runtime_codex;
        profile_id = "p1";
        profile_revision_id = "r";
        tool_count = pos 1;
      }
      ∷ [];
  missing_profile = record {
    behavior = "default";
    profile_id = none;
    profile_revision_id = none;
    tool_count = pos 2;
  };
  invalid_profile_error_code = "profile_unknown";
  concurrent_session_count = pos 2;
  upstream_processes = record { server_id = "git"; process_count = pos 1 } ∷ [];
}

response_accepted : validate_canary_response bundle digest response ≡ none
unfolding validate_canary_response check_canary check_after_profiles check_upstream check_processes
    bad_missing check_canary_profiles is_expected expected_profile first_profile of_kind sort_by
    is_count is_sha256 all_chars relay_canary_tool_count tool_count_of server_tool_count count_tools
    is_offered visible_by decision_by find_profile_server relay_canary_default_tool_count
    default_count_of
response_accepted = refl

validate_canary_response-none_example :
    (c : PublishedProfile) × (d : PublishedProfile) × IsLeastOfKind bundle "claude" c
    × IsLeastOfKind bundle "codex" d
    × (response ≡ expected_response bundle digest c d)
validate_canary_response-none_example =
    validate_canary_response-none bundle digest response response_accepted

abbrev capability : List String → RelayCapabilityResponse
capability features = record {
  admin_protocol_version = pos 1;
  features = features;
  routing_schema_versions = pos 2 ∷ pos 1 ∷ [];
  runtime = "mcpm";
  runtime_version = " 2.1.0 ";
}

capability_accepted :
    relay_enforcement_capability_compatible (capability relay_enforcement_features) ≡ true
unfolding relay_enforcement_capability_compatible is_count is_version_text all_chars trim_space
capability_accepted = refl

capability_refused :
    relay_enforcement_capability_compatible (capability ("session-canary" ∷ [])) ≡ false
unfolding relay_enforcement_capability_compatible is_count is_version_text all_chars trim_space
capability_refused = refl
