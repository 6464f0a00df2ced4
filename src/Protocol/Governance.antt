-- ===== src/Protocol/Governance.antt =====
-- internal/bridgeprotocol/governance.go: RoutingBundle.Validate and Canonical.
pub mod Laws
pub mod Names
mod Tests
use Prim.Native.String.{◌++◌ as concat}
use toolhub.Common.{
  ℕ, ◌+◌, String, len, Bool, true, false, not, ◌&&◌, ◌||◌, Option, none, some, is_none, List, [],
  ◌∷◌, Result, ok, err, ◌>>=◌, map, any, member, length, ltb, leb, eqb, ◌==◌, starts_with,
  if◌then◌else◌,
}
use toolhub.Common.Text.{trim_space}
use toolhub.Protocol.Bundle.{
  RoutingTool, ServerContract, ToolVisibilityOverride, ToolPolicyRule, ProfileServerRouting,
  PublishedProfile, RoutingBundle,
}
use toolhub.Protocol.External.{External}
use toolhub.Protocol.Target.{is_sha256, runtime_claude, runtime_codex}

-- The errors of RoutingBundle.Validate.
pub data BundleError : Type 0 where
  bad_metadata bad_default_profile profile_limit bad_server duplicate_server_id : BundleError
  duplicate_server_name bad_contract_pointer unaccepted_server bad_tool : BundleError
  duplicate_tool_id duplicate_tool_name duplicate_runtime_name ambiguous_prefix : BundleError
  bad_profile duplicate_profile_id duplicate_profile_name bad_server_pin : BundleError
  unaccepted_profile_server duplicate_profile_server bad_override unknown_override : BundleError
  duplicate_override bad_rule duplicate_rule loosened_rule unpublished_default : BundleError

unfoldable pub valid_governance_name : String → Bool
valid_governance_name value = let name = trim_space value in not (name == "") && leb (len name) 256

unfoldable pub valid_governance_decision : String → Bool
valid_governance_decision value = value == "allow" || value == "confirm" || value == "deny"

unfoldable pub decision_rank : String → ℕ
decision_rank value = if value == "deny" then 2 else if value == "confirm" then 1 else 0

unfoldable pub find_routing_server : List ServerContract → String → Option ServerContract
find_routing_server [] id = none
find_routing_server (s ∷ ss) id = if s.server_id == id then some s else find_routing_server ss id

unfoldable pub find_routing_tool : List RoutingTool → String → Option RoutingTool
find_routing_tool [] id = none
find_routing_tool (t ∷ ts) id = if t.tool_id == id then some t else find_routing_tool ts id

unfoldable pub same_optional : Option String → Option String → Bool
same_optional none none = true
same_optional (some a) (some b) = a == b
same_optional _ _ = false

abbrev pub holds : (String → Bool) → Option String → Bool
holds p none = true
holds p (some s) = p s

-- The name under which the relay serves a tool.
abbrev pub runtime_name : Bool → String → String → String
runtime_name many server tool = if many then concat server (concat "_" tool) else tool

same_nil : Option String → Option String → Bool
same_nil none none = true
same_nil (some a) (some b) = true
same_nil _ _ = false

-- What the loop over the servers has gathered.
pub record ServerScan : Type 0 where
  pub ids : List String
  pub names : List String
  pub runtime_tool_names : List String
  pub total_tools : ℕ

abbrev is_ambiguous : List String → String → Bool
is_ambiguous names name = any (λ o. not (name == o) && starts_with o (concat name "_")) names

-- `!ok || decisionRank(rule.Decision) < decisionRank(serverTool.GlobalDecision)`
loosens : List RoutingTool → ToolPolicyRule → Bool
loosens tools r = elim (find_routing_tool tools r.tool_id) [
  | none ↦ true
  | some t ↦ ltb (decision_rank r.decision) (decision_rank t.global_decision)
]

-- The pin of a profile on a server that the bundle has.
is_pinned : ProfileServerRouting → ServerContract → Bool
is_pinned p s =
    p.mcp_config_revision_id == s.mcp_config_revision_id
    && same_optional p.accepted_contract_revision_id s.accepted_contract_revision_id
    && (p.visibility_mode == "all_accepted"
        || p.visibility_mode == "selected"
        || p.visibility_mode == "hidden")

abbrev pub empty_scan : ServerScan
empty_scan = record { ids = []; names = []; runtime_tool_names = []; total_tools = 0 }

abbrev to_result : Option BundleError → Result BundleError (Unit {0})
to_result none = ok tt
to_result (some e) = err e

check_totals : RoutingBundle → ServerScan → List String × ℕ → Option BundleError
check_totals r scan (ids, rules) =
    if not (holds (λ d. member d ids) r.default_profile_id)
    then some unpublished_default
    else if ltb 10000 scan.total_tools || ltb 20000 rules
    then some profile_limit
    else none

module _ (ext : External) where
  open ext use {validate_uuid, canonical_hash}

  -- The loop over one server's tools; the scan carries what all the servers share.
  check_tools :
      Bool
      → String
      → List RoutingTool
      → List String
      → List String
      → ServerScan
      → Result BundleError ServerScan
  check_tools many server [] tool_ids tool_names scan = ok scan
  check_tools many server (t ∷ ts) tool_ids tool_names scan =
      let rest =
        check_tools many server ts (t.tool_id ∷ tool_ids) (t.name ∷ tool_names) (record scan {
          runtime_tool_names = runtime_name many server t.name ∷ scan.runtime_tool_names;
          total_tools = scan.total_tools + 1;
        }) in
      if not (validate_uuid t.tool_id)
        || not (valid_governance_name t.name)
        || not (valid_governance_decision t.global_decision)
      then err bad_tool
      else if member t.tool_id tool_ids
      then err duplicate_tool_id
      else if member t.name tool_names
      then err duplicate_tool_name
      else if member (runtime_name many server t.name) scan.runtime_tool_names
      then err duplicate_runtime_name
      else rest

  -- The tests on a server before its tools.
  check_server : String → ServerContract → ServerScan → Option BundleError
  check_server mode s scan =
      if not (validate_uuid s.server_id)
        || not (validate_uuid s.mcp_config_revision_id)
        || not (valid_governance_name s.server_name)
      then some bad_server
      else if member s.server_id scan.ids
      then some duplicate_server_id
      else if member s.server_name scan.names
      then some duplicate_server_name
      else if not (
          same_nil s.accepted_contract_revision_id s.accepted_contract_hash
          && holds validate_uuid s.accepted_contract_revision_id
          && holds is_sha256 s.accepted_contract_hash)
      then some bad_contract_pointer
      else if mode == "enforced" && is_none s.accepted_contract_revision_id
      then some unaccepted_server
      else none

  -- The loop over the servers.
  pub check_servers :
      String → Bool → List ServerContract → ServerScan → Result BundleError ServerScan
  check_servers mode many [] scan = ok scan
  check_servers mode many (s ∷ ss) scan = elim (check_server mode s scan) [
    | some e ↦ err e
    | none ↦
        check_tools many s.server_name s.tools [] []
          (record scan { ids = s.server_id ∷ scan.ids; names = s.server_name ∷ scan.names })
        >>= λ next. check_servers mode many ss next
  ]

  check_overrides : List String → List ToolVisibilityOverride → List String → Option BundleError
  check_overrides tool_ids [] seen = none
  check_overrides tool_ids (o ∷ os) seen =
      let rest = check_overrides tool_ids os (o.tool_id ∷ seen) in
      if not (validate_uuid o.tool_id)
      then some bad_override
      else if not (member o.tool_id tool_ids)
      then some unknown_override
      else if member o.tool_id seen
      then some duplicate_override
      else rest

  check_rules : List RoutingTool → List ToolPolicyRule → List String → Option BundleError
  check_rules tools [] seen = none
  check_rules tools (r ∷ rs) seen =
      let rest = check_rules tools rs (r.tool_id ∷ seen) in
      if not (validate_uuid r.tool_id) || not (valid_governance_decision r.decision)
      then some bad_rule
      else if member r.tool_id seen
      then some duplicate_rule
      else if loosens tools r
      then some loosened_rule
      else rest

  -- One server of a profile, once the server is found.
  check_profile_server :
      String → List String → ProfileServerRouting → ServerContract → Option BundleError
  check_profile_server mode seen p s =
      if not (is_pinned p s)
      then some bad_server_pin
      else if mode == "enforced" && is_none p.accepted_contract_revision_id
      then some unaccepted_profile_server
      else if member p.server_id seen
      then some duplicate_profile_server
      else elim (check_overrides (map (λ t. t.tool_id) s.tools) p.tool_overrides []) [
        | some e ↦ some e
        | none ↦ check_rules s.tools p.tool_rules []
      ]

  -- The loop over one profile's servers; the result is the number of rules.
  check_profile_servers :
      String
      → List ServerContract
      → List ProfileServerRouting
      → List String
      → ℕ
      → Result BundleError ℕ
  check_profile_servers mode servers [] seen rules = ok rules
  check_profile_servers mode servers (p ∷ ps) seen rules =
      let rest =
        check_profile_servers mode servers ps (p.server_id ∷ seen) (rules + length p.tool_rules) in
      elim (find_routing_server servers p.server_id) [
        | none ↦ err bad_server_pin
        | some s ↦ elim (check_profile_server mode seen p s) [ some e ↦ err e | none ↦ rest ]
      ]

  check_profile : PublishedProfile → List String → List String → Option BundleError
  check_profile p ids names =
      if not (validate_uuid p.profile_id)
        || not (validate_uuid p.profile_revision_id)
        || not (is_sha256 p.profile_revision_hash)
        || not (valid_governance_name p.profile_name)
        || (not (p.client_kind == runtime_claude) && not (p.client_kind == runtime_codex))
      then some bad_profile
      else if member p.profile_id ids
      then some duplicate_profile_id
      else if member p.profile_name names
      then some duplicate_profile_name
      else none

  -- The loop over the profiles; the result is their ids and the number of rules.
  pub check_profiles :
      String
      → List ServerContract
      → List PublishedProfile
      → List String
      → List String
      → ℕ
      → Result BundleError (List String × ℕ)
  check_profiles mode servers [] ids names rules = ok (ids, rules)
  check_profiles mode servers (p ∷ ps) ids names rules = elim (check_profile p ids names) [
    | some e ↦ err e
    | none ↦ check_profile_servers mode servers p.servers [] rules >>= λ total.
        check_profiles mode servers ps (p.profile_id ∷ ids) (p.profile_name ∷ names) total
  ]

  check_metadata : RoutingBundle → Option BundleError
  check_metadata r =
      if not (eqb r.schema_version 1)
        || (not (r.mode == "compatibility") && not (r.mode == "enforced"))
        || not (validate_uuid r.relay_configuration_revision_id)
        || not (validate_uuid r.global_policy_revision_id)
        || not (is_sha256 r.relay_configuration_hash)
        || not (is_sha256 r.global_policy_hash)
      then some bad_metadata
      else if not (holds validate_uuid r.default_profile_id)
      then some bad_default_profile
      else if ltb 500 (length r.servers) || ltb 100 (length r.profiles)
      then some profile_limit
      else none

  -- RoutingBundle.Validate
  pub validate_bundle : RoutingBundle → Result BundleError (Unit {0})
  validate_bundle r = to_result (check_metadata r) >>= λ _.
      check_servers r.mode (ltb 1 (length r.servers)) r.servers empty_scan >>= λ scan.
      (if any (is_ambiguous scan.names) scan.names then err ambiguous_prefix else ok tt) >>= λ _.
      check_profiles r.mode r.servers r.profiles [] [] 0 >>= λ published.
      to_result (check_totals r scan published)

  -- RoutingBundle.Canonical, the hash alone; `none` is any error.
  unfoldable pub canonical_bundle_hash : RoutingBundle → Option String
  canonical_bundle_hash r = elim (validate_bundle r) [ ok _ ↦ canonical_hash r | err _ ↦ none ]
