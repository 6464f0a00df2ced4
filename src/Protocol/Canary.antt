-- ===== src/Protocol/Canary.antt =====
-- internal/bridgeprotocol/governance.go: what a Relay must be able to do, and the session canary of a
-- routing bundle.
pub mod Offered
pub mod Expected
mod Tests
use toolhub.Common.{
  ℕ, ◌+◌, suc, code, String, len, Bool, true, false, not, ◌&&◌, ◌||◌, Option, none, some, is_none,
  List, [], ◌∷◌, Result, ok, err, all, any, member, length, ltb, eqb, ◌==◌, if◌then◌else◌,
}
use toolhub.Common.Text.{trim_space, all_chars}
use toolhub.Common.Sort.{sort_by}
use toolhub.Common.Int.{ℤ, pos, negsuc}
use toolhub.Json.{Json}
use toolhub.Protocol.External.{External}
use toolhub.Protocol.Bundle.{
  RoutingTool, ServerContract, ToolVisibilityOverride, ToolPolicyRule, ProfileServerRouting,
  PublishedProfile, RoutingBundle,
}
use toolhub.Protocol.Target.{is_sha256, runtime_claude, runtime_codex}
use toolhub.Protocol.Governance.{validate_bundle, canonical_bundle_hash}
use toolhub.Protocol.Body.{max_body_bytes, validate_governance_body}

pub record RelayCapabilityResponse : Type 0 where
  pub admin_protocol_version : ℤ
  pub features : List String
  pub routing_schema_versions : List ℤ
  pub runtime : String
  pub runtime_version : String

abbrev pub relay_enforcement_features : List String
relay_enforcement_features =
    "profile-session-binding" ∷ "tool-filtering" ∷ "call-policy" ∷ "one-shot-confirmation"
    ∷ "payload-free-observations" ∷ "routing-hot-reload" ∷ "session-canary" ∷ []

-- A number of Go's `int` that is the natural number.
unfoldable pub is_count : ℤ → ℕ → Bool
is_count (pos m) n = eqb m n
is_count (negsuc m) n = false

-- A version that is not empty, not long, and has no control character.
unfoldable pub is_version_text : String → Bool
is_version_text version =
    not (version == "")
    && not (ltb 64 (len version))
    && all_chars (λ n. not (ltb n 0x20 || eqb n 0x7F)) version

-- RelayEnforcementCapabilityCompatible
pub relay_enforcement_capability_compatible : RelayCapabilityResponse → Bool
relay_enforcement_capability_compatible c =
    is_count c.admin_protocol_version 1
    && c.runtime == "mcpm"
    && is_version_text (trim_space c.runtime_version)
    && any (λ v. is_count v 1) c.routing_schema_versions
    && all (λ f. member f c.features) relay_enforcement_features

pub record NativeClientInspection : Type 0 where
  pub client_kind : String
  pub version : String
  pub supported : Bool
  pub error_code : String

-- NativeClientInspectionCompatible
pub native_client_inspection_compatible : NativeClientInspection → String → Bool
native_client_inspection_compatible i client_kind =
    i.client_kind == client_kind
    && i.supported
    && i.error_code == ""
    && is_version_text (trim_space i.version)

pub record CanaryProfile : Type 0 where
  pub client_kind : String
  pub profile_id : String
  pub profile_revision_id : String
  pub tool_count : ℤ

pub record CanaryMissing : Type 0 where
  pub behavior : String
  pub profile_id : Option String
  pub profile_revision_id : Option String
  pub tool_count : ℤ

pub record CanaryProcess : Type 0 where
  pub server_id : String
  pub process_count : ℤ

pub record CanaryResponse : Type 0 where
  pub routing_bundle_hash : String
  pub profiles : List CanaryProfile
  pub missing_profile : CanaryMissing
  pub invalid_profile_error_code : String
  pub concurrent_session_count : ℤ
  pub upstream_processes : List CanaryProcess

pub data CanaryError : Type 0 where
  bad_binding no_profile_of_kind profile_count bad_profile bad_default upstream_count bad_upstream :
      CanaryError

-- The profile's routing of a server: the first with its identifier.
find_profile_server : List ProfileServerRouting → String → Option ProfileServerRouting
find_profile_server [] id = none
find_profile_server (p ∷ ps) id = if p.server_id == id then some p else find_profile_server ps id

visible_by : List ToolVisibilityOverride → String → Bool → Bool
visible_by [] id default = default
visible_by (o ∷ os) id default = if o.tool_id == id then o.visible else visible_by os id default

decision_by : List ToolPolicyRule → String → String → String
decision_by [] id global = global
decision_by (r ∷ rs) id global = if r.tool_id == id then r.decision else decision_by rs id global

-- A tool that the profile shows and does not deny.
is_offered : ProfileServerRouting → RoutingTool → Bool
unfolding visible_by decision_by
is_offered p t =
    visible_by p.tool_overrides t.tool_id (p.visibility_mode == "all_accepted")
    && not t.paused
    && not (decision_by p.tool_rules t.tool_id t.global_decision == "deny")

count_tools : (RoutingTool → Bool) → List RoutingTool → ℕ
count_tools f [] = 0
count_tools f (t ∷ ts) = let rest = count_tools f ts in if f t then suc rest else rest

server_tool_count : Option ProfileServerRouting → ServerContract → ℕ
unfolding is_offered
server_tool_count none s = 0
server_tool_count (some p) s = count_tools (is_offered p) s.tools

tool_count_of : List ServerContract → PublishedProfile → ℕ
unfolding server_tool_count
tool_count_of [] p = 0
tool_count_of (s ∷ ss) p =
    server_tool_count (find_profile_server p.servers s.server_id) s + tool_count_of ss p

-- relayCanaryToolCount
pub relay_canary_tool_count : RoutingBundle → PublishedProfile → ℕ
unfolding tool_count_of
relay_canary_tool_count b p = tool_count_of b.servers p

default_count_of : List ServerContract → ℕ
default_count_of [] = 0
default_count_of (s ∷ ss) =
    count_tools (λ t. not t.paused && not (t.global_decision == "deny")) s.tools
    + default_count_of ss

-- relayCanaryDefaultToolCount
pub relay_canary_default_tool_count : RoutingBundle → ℕ
unfolding default_count_of
relay_canary_default_tool_count b = default_count_of b.servers

of_kind : String → List PublishedProfile → List PublishedProfile
of_kind kind [] = []
of_kind kind (p ∷ ps) =
    let rest = of_kind kind ps in if p.client_kind == kind then p ∷ rest else rest

first_profile : List PublishedProfile → Option PublishedProfile
first_profile [] = none
first_profile (p ∷ ps) = some p

-- The profile of a kind with the least identifier.
pub expected_profile : RoutingBundle → String → Option PublishedProfile
unfolding first_profile of_kind
expected_profile b kind =
    first_profile (sort_by (λ (p : PublishedProfile). p.profile_id) (of_kind kind b.profiles))

is_expected : RoutingBundle → PublishedProfile → CanaryProfile → Bool
is_expected b p a =
    a.client_kind == p.client_kind
    && a.profile_id == p.profile_id
    && a.profile_revision_id == p.profile_revision_id
    && is_count a.tool_count (relay_canary_tool_count b p)

-- The two profiles, in the order of the kinds; any other number is refused.
check_canary_profiles :
    RoutingBundle → PublishedProfile → PublishedProfile → List CanaryProfile → Option CanaryError
unfolding is_expected
check_canary_profiles b c d (x ∷ y ∷ []) =
    if is_expected b c x && is_expected b d y then none else some bad_profile
check_canary_profiles b c d _ = some profile_count

bad_missing : RoutingBundle → CanaryMissing → Bool
bad_missing b m =
    not (m.behavior == "default")
    || not (is_none m.profile_id)
    || not (is_none m.profile_revision_id)
    || not (is_count m.tool_count (relay_canary_default_tool_count b))

-- The loop over the servers, after the test that there are as many processes.
check_processes : List ServerContract → List CanaryProcess → Option CanaryError
check_processes [] _ = none
check_processes (s ∷ ss) [] = some bad_upstream
check_processes (s ∷ ss) (p ∷ ps) =
    if not (p.server_id == s.server_id) || not (is_count p.process_count 1)
    then some bad_upstream
    else check_processes ss ps

check_upstream : RoutingBundle → CanaryResponse → Option CanaryError
unfolding check_processes
check_upstream b r =
    if not (eqb (length r.upstream_processes) (length b.servers))
    then some upstream_count
    else check_processes b.servers r.upstream_processes

check_after_profiles : RoutingBundle → CanaryResponse → Option CanaryError → Option CanaryError
unfolding bad_missing check_upstream
check_after_profiles b r (some e) = some e
check_after_profiles b r none =
    if bad_missing b r.missing_profile then some bad_default else check_upstream b r

check_canary :
    RoutingBundle
    → CanaryResponse
    → Option PublishedProfile
    → Option PublishedProfile
    → Option CanaryError
unfolding check_canary_profiles check_after_profiles
check_canary b r (some c) (some d) =
    check_after_profiles b r (check_canary_profiles b c d r.profiles)
check_canary b r _ _ = some no_profile_of_kind

-- ValidateRelaySessionCanaryResponse
pub validate_canary_response : RoutingBundle → String → CanaryResponse → Option CanaryError
unfolding check_canary
validate_canary_response b routing_hash r =
    if not (is_sha256 routing_hash)
      || not (r.routing_bundle_hash == routing_hash)
      || not (r.invalid_profile_error_code == "profile_unknown")
      || not (is_count r.concurrent_session_count 2)
    then some bad_binding
    else check_canary b r (expected_profile b runtime_claude) (expected_profile b runtime_codex)

is_bound : External → String → RoutingBundle → Bool
is_bound ext hash b = elim (canonical_bundle_hash ext b) [ none ↦ false | some h ↦ h == hash ]

accepts_bundle : External → String → RoutingBundle → Option RoutingBundle
unfolding is_bound
accepts_bundle ext hash b = elim (validate_bundle ext b) [
  | err e ↦ none
  | ok _ ↦ if b.mode == "enforced" && is_bound ext hash b then some b else none
]

-- ValidateRelaySessionCanaryRequest, where an error is `none`: the routing bundle's bytes are decoded
-- as a value, for the limits, and then strictly as a bundle.
pub validate_canary_request :
    External
    → (String → Option Json)
    → (String → Option RoutingBundle)
    → String
    → String
    → Option RoutingBundle
unfolding accepts_bundle
validate_canary_request ext decode decode_bundle hash body =
    if not (is_sha256 hash) || body == "" || ltb max_body_bytes (len body)
    then none
    else elim (validate_governance_body decode body) [
      | err e ↦ none
      | ok v ↦ elim (decode_bundle body) [ none ↦ none | some b ↦ accepts_bundle ext hash b ]
    ]
