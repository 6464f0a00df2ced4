-- ===== src/Protocol/Bundle.antt =====
-- internal/bridgeprotocol/governance.go: the routing bundle's data.
use toolhub.Common.{ℕ, String, Bool, Option, List}
use toolhub.Json.{Fields}

pub record RoutingTool : Type 0 where
  pub tool_id : String
  pub name : String
  pub input_schema : Fields
  pub output_schema : Fields
  pub annotations : Fields
  pub global_decision : String
  pub reason_codes : List String
  pub paused : Bool

pub record ServerContract : Type 0 where
  pub server_id : String
  pub server_name : String
  pub mcp_config_revision_id : String
  pub accepted_contract_revision_id : Option String
  pub accepted_contract_hash : Option String
  pub tools : List RoutingTool

pub record ToolVisibilityOverride : Type 0 where
  pub tool_id : String
  pub visible : Bool

pub record ToolPolicyRule : Type 0 where
  pub tool_id : String
  pub decision : String

pub record ProfileServerRouting : Type 0 where
  pub server_id : String
  pub mcp_config_revision_id : String
  pub accepted_contract_revision_id : Option String
  pub visibility_mode : String
  pub tool_overrides : List ToolVisibilityOverride
  pub tool_rules : List ToolPolicyRule

pub record PublishedProfile : Type 0 where
  pub profile_id : String
  pub profile_revision_id : String
  pub profile_revision_hash : String
  pub profile_name : String
  pub client_kind : String
  pub servers : List ProfileServerRouting

pub record RoutingBundle : Type 0 where
  pub schema_version : ℕ
  pub mode : String
  pub relay_configuration_revision_id : String
  pub relay_configuration_hash : String
  pub global_policy_revision_id : String
  pub global_policy_hash : String
  pub default_profile_id : Option String
  pub servers : List ServerContract
  pub profiles : List PublishedProfile
