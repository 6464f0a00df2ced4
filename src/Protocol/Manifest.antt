-- ===== src/Protocol/Manifest.antt =====
-- internal/bridgeprotocol/types.go: the desired manifest, DesiredManifest.Normalize and Validate.
mod Loops
pub mod Members
pub mod Scope
mod Tests
use toolhub.Common.{
  ℕ, String, Bool, true, false, not, ◌&&◌, ◌||◌, Option, none, some, is_none, List, [], ◌∷◌, ◌++◌,
  Result, ok, err, ◌>>=◌, map, all, any, member, length, ltb, leb, eqb, ◌==◌, if◌then◌else◌,
}
use toolhub.Common.Text.{trim_space}
use toolhub.Common.Sort.{sort_by}
use toolhub.Common.Int.{ℤ, pos, negsuc, ltb_ℤ}
use toolhub.Protocol.Bundle.{RoutingBundle}
use toolhub.Protocol.External.{External}
use toolhub.Protocol.Governance.{BundleError, validate_bundle}
use toolhub.Protocol.Target.{
  Target, TargetError, validate_target, is_sha256, slug_pattern, valid_id, is_protected_skill_entry,
  runtime_shared_relay, node_kind_local,
}

pub record SkillMember : Type 0 where
  pub member_id : String
  pub skill_id : String
  pub version_id : String
  pub slug : String
  pub sha256 : String
  pub content_hash : String

-- A `map[string]string` is a list of its entries.
pub record McpMember : Type 0 where
  pub member_id : String
  pub server_id : String
  pub revision : ℤ
  pub name : String
  pub transport : String
  pub command : String
  pub args : List String
  pub url : String
  pub env_refs : List (String × String)
  pub header_refs : List (String × String)
  pub content_hash : String

-- The raw routing bundle is its length and what decodeStrictGovernance makes of it.
pub record RelayGovernanceManifest : Type 0 where
  pub relay_configuration_revision_id : String
  pub relay_configuration_hash : String
  pub routing_bundle_size : ℕ
  pub routing_bundle : Option RoutingBundle
  pub routing_hash : String

pub record DesiredManifest : Type 0 where
  pub schema_version : ℤ
  pub target : Target
  pub profile_id : String
  pub profile_revision : ℤ
  pub skills : List SkillMember
  pub mcp_servers : List McpMember
  pub managed_member_ids : List String
  pub relay_port : ℤ
  pub relay_governance : Option RelayGovernanceManifest

-- The errors of RelayGovernanceManifest.Validate.
pub data RelayGovernanceError : Type 0 where
  bad_identifiers malformed_bundle not_canonical hash_mismatch revision_mismatch :
      RelayGovernanceError
  invalid_bundle : BundleError → RelayGovernanceError

-- The errors of DesiredManifest.Validate.
pub data ManifestError : Type 0 where
  unsupported_schema governance_needs_relay v1_governance : ManifestError
  bad_governance : RelayGovernanceError → ManifestError
  bad_target : TargetError → ManifestError
  negative_revision bad_relay_port local_mcp relay_skills bad_skill_id bad_slug : ManifestError
  bad_skill_hash duplicate_member bad_mcp_id bad_mcp bad_stdio bad_network : ManifestError
  bad_transport bad_secret_ref unmatched_count unknown_member : ManifestError

-- DesiredManifest.Normalize. A nil slice and an empty one are both the empty list.
unfoldable pub normalize : DesiredManifest → DesiredManifest
normalize m = record m {
  schema_version = elim m.schema_version [
    | pos n ↦ if eqb n 0 then pos 1 else pos n
    | negsuc n ↦ negsuc n
  ];
  skills = sort_by (λ s. s.member_id) m.skills;
  mcp_servers = sort_by (λ s. s.member_id) m.mcp_servers;
  managed_member_ids = sort_by (λ s. s) m.managed_member_ids;
}

abbrev is_version : ℕ → ℤ → Bool
is_version n (pos k) = eqb k n
is_version n (negsuc k) = false

-- mergeRefs: an entry of a later map replaces one of an earlier.
put_ref : String × String → List (String × String) → List (String × String)
put_ref (k, v) [] = (k, v) ∷ []
put_ref (k, v) ((j, w) ∷ m) = if j == k then (k, v) ∷ m else (j, w) ∷ put_ref (k, v) m

merge_refs : List (String × String) → List (String × String) → List (String × String)
unfolding put_ref
merge_refs m [] = m
merge_refs m (e ∷ es) = merge_refs (put_ref e m) es

valid_transport : McpMember → Option ManifestError
valid_transport s =
    if s.transport == "stdio"
    then (if trim_space s.command == "" || not (s.url == "") then some bad_stdio else none)
    else if s.transport == "http" || s.transport == "sse"
    then (if trim_space s.url == "" || not (s.command == "") || not (eqb (length s.args) 0)
        then some bad_network
        else none)
    else some bad_transport

pub check_managed : List String → List String → Option ManifestError
check_managed managed seen =
    if not (eqb (length managed) (length seen))
    then some unmatched_count
    else if all (λ id. member id seen) managed
    then none
    else some unknown_member

abbrev pub step : Option ManifestError → Result ManifestError (Unit {0})
step none = ok tt
step (some e) = err e

module _ (ext : External) where
  open ext use {validate_uuid, canonical_hash}

  -- RelayGovernanceManifest.Validate
  pub valid_relay_governance : RelayGovernanceManifest → Option RelayGovernanceError
  valid_relay_governance g =
      if not (validate_uuid g.relay_configuration_revision_id)
        || not (is_sha256 g.relay_configuration_hash)
        || not (is_sha256 g.routing_hash)
        || eqb g.routing_bundle_size 0
        || ltb 1048576 g.routing_bundle_size
      then some bad_identifiers
      else elim g.routing_bundle [
        | none ↦ some malformed_bundle
        | some b ↦ elim (validate_bundle ext b) [
          | err e ↦ some (invalid_bundle e)
          | ok _ ↦ elim (canonical_hash b) [
            | none ↦ some not_canonical
            | some h ↦
                if not (h == g.routing_hash)
                then some hash_mismatch
                else if not (b.relay_configuration_revision_id == g.relay_configuration_revision_id)
                    || not (b.relay_configuration_hash == g.relay_configuration_hash)
                then some revision_mismatch
                else none
          ]
        ]
      ]

  valid_skill : SkillMember → Option ManifestError
  valid_skill s =
      if not (valid_id ext s.member_id)
        || not (valid_id ext s.skill_id)
        || not (valid_id ext s.version_id)
      then some bad_skill_id
      else if not (slug_pattern s.slug) || is_protected_skill_entry ext s.slug
      then some bad_slug
      else if not (is_sha256 s.sha256) || not (is_sha256 s.content_hash)
      then some bad_skill_hash
      else none

  -- The loop over the Skills; the result is the set of the members seen.
  pub check_skills : List SkillMember → List String → Result ManifestError (List String)
  check_skills [] seen = ok seen
  check_skills (s ∷ ss) seen =
      let rest = check_skills ss (s.member_id ∷ seen) in
      elim (valid_skill s) [
        | some e ↦ err e
        | none ↦ if member s.member_id seen then err duplicate_member else rest
      ]

  bad_ref : String × String → Bool
  bad_ref (key, ref) = trim_space key == "" || not (validate_uuid ref)

  valid_mcp : McpMember → Option ManifestError
  valid_mcp s =
      if not (valid_id ext s.member_id)
        || not (valid_id ext s.server_id)
        || ltb_ℤ s.revision (pos 1)
      then some bad_mcp_id
      else if not (slug_pattern s.name) || not (is_sha256 s.content_hash)
      then some bad_mcp
      else elim (valid_transport s) [
        | some e ↦ some e
        | none ↦
            if any bad_ref (merge_refs (merge_refs [] s.env_refs) s.header_refs)
            then some bad_secret_ref
            else none
      ]

  pub check_mcp_servers : List McpMember → List String → Result ManifestError (List String)
  check_mcp_servers [] seen = ok seen
  check_mcp_servers (s ∷ ss) seen =
      let rest = check_mcp_servers ss (s.member_id ∷ seen) in
      elim (valid_mcp s) [
        | some e ↦ err e
        | none ↦ if member s.member_id seen then err duplicate_member else rest
      ]

  pub check_governance : DesiredManifest → Option ManifestError
  check_governance m =
      if not (is_version 1 m.schema_version) && not (is_version 2 m.schema_version)
      then some unsupported_schema
      else if is_version 2 m.schema_version
      then elim m.relay_governance [
        | none ↦ some governance_needs_relay
        | some g ↦
            if not (m.target.runtime == runtime_shared_relay)
            then some governance_needs_relay
            else elim (valid_relay_governance g) [ none ↦ none | some e ↦ some (bad_governance e) ]
      ]
      else if is_none m.relay_governance
      then none
      else some v1_governance

  -- The checks of the target and of what it may contain.
  pub check_scope : Bool → DesiredManifest → Option ManifestError
  check_scope write m =
      let is_relay = m.target.runtime == runtime_shared_relay in
      elim (validate_target ext write m.target) [
        | some e ↦ some (bad_target e)
        | none ↦
            if ltb_ℤ m.profile_revision (pos 0)
            then some negative_revision
            else if is_relay && (ltb_ℤ m.relay_port (pos 1) || ltb_ℤ (pos 65535) m.relay_port)
            then some bad_relay_port
            else if not is_relay
                && ltb 0 (length m.mcp_servers)
                && m.target.node_kind == node_kind_local
            then some local_mcp
            else if is_relay && ltb 0 (length m.skills)
            then some relay_skills
            else none
      ]

  pub validate_normal : Bool → DesiredManifest → Result ManifestError (Unit {0})
  validate_normal write m = step (check_governance m) >>= λ _. step (check_scope write m) >>= λ _.
      check_skills m.skills [] >>= λ seen. check_mcp_servers m.mcp_servers seen >>= λ seen'.
      step (check_managed m.managed_member_ids seen')

  -- DesiredManifest.Validate
  pub validate_manifest : Bool → DesiredManifest → Result ManifestError (Unit {0})
  unfolding normalize
  validate_manifest write m = validate_normal write (normalize m)
