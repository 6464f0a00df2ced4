-- ===== src/Protocol/Manifest/Loops.antt =====
-- The loops of DesiredManifest.Validate, and the parts of a manifest that it accepts.
use toolhub.Common.{
  ◌+◌, String, Bool, none, List, [], ◌∷◌, ◌++◌, map, length, ok, Result-cases, occurrences,
  IsUnique, IsUnique-cons, ◌≡◌, arith, inl, inr,
}
use toolhub.Protocol.External.{External}
use toolhub.Protocol.Manifest.{
  SkillMember, McpMember, DesiredManifest, check_skills, check_mcp_servers, check_governance,
  check_scope, check_managed, validate_normal,
}

-- The identifiers of the members: the Skills' and then the servers'.
abbrev pub skill_ids : List SkillMember → List String
skill_ids ss = map (λ s. s.member_id) ss

abbrev pub server_ids : List McpMember → List String
server_ids ss = map (λ s. s.member_id) ss

abbrev pub member_ids : DesiredManifest → List String
member_ids m = skill_ids m.skills ++ server_ids m.mcp_servers

-- A scan of members has gathered their identifiers, each once.
pub record Gathered (ids seen next : List String) : Type 0 where
  pub unique : IsUnique next
  pub holds : (k : String) → occurrences k next ≡ occurrences k ids + occurrences k seen
  pub size : length next ≡ length ids + length seen

module _ (ext : External) where
  pub check_skills-Gathered :
      (ss : List SkillMember) (seen next : List String)
      → check_skills ext ss seen ≡ ok next
      → IsUnique seen
      → Gathered (skill_ids ss) seen next
  unfolding check_skills
  check_skills-Gathered [] seen next h u = record {
    unique = λ k. ground (arith, u k);
    holds = λ k. ground arith;
    size = ground arith;
  }
  check_skills-Gathered (s ∷ ss) seen next h u =
      let g =
        check_skills-Gathered ss (s.member_id ∷ seen) next (ground arith)
          (IsUnique-cons s.member_id seen (ground arith) u) in
      record {
        unique = g.unique;
        holds = λ k. omega (arith, g.holds k);
        size = omega (arith, g.size);
      }

  pub check_mcp_servers-Gathered :
      (ss : List McpMember) (seen next : List String)
      → check_mcp_servers ext ss seen ≡ ok next
      → IsUnique seen
      → Gathered (server_ids ss) seen next
  unfolding check_mcp_servers
  check_mcp_servers-Gathered [] seen next h u = record {
    unique = λ k. ground (arith, u k);
    holds = λ k. ground arith;
    size = ground arith;
  }
  check_mcp_servers-Gathered (s ∷ ss) seen next h u =
      let g =
        check_mcp_servers-Gathered ss (s.member_id ∷ seen) next (ground arith)
          (IsUnique-cons s.member_id seen (ground arith) u) in
      record {
        unique = g.unique;
        holds = λ k. omega (arith, g.holds k);
        size = omega (arith, g.size);
      }

  -- The parts of an accepted manifest.
  pub record Accepted (write : Bool) (m : DesiredManifest) : Type 0 where
    pub governed : check_governance ext m ≡ none
    pub scoped : check_scope ext write m ≡ none
    pub skills_seen : List String
    pub seen : List String
    pub skills_ok : check_skills ext m.skills [] ≡ ok skills_seen
    pub servers_ok : check_mcp_servers ext m.mcp_servers skills_seen ≡ ok seen
    pub managed : check_managed m.managed_member_ids seen ≡ none

  pub accepted :
      (write : Bool) (m : DesiredManifest) → validate_normal ext write m ≡ ok tt → Accepted write m
  unfolding validate_normal
  accepted write m h = elim (Result-cases (check_skills ext m.skills [])) [
    | inl (e, q) ↦ absurd (ground (arith, q))
    | inr (a, q) ↦ elim (Result-cases (check_mcp_servers ext m.mcp_servers a)) [
      | inl (e, p) ↦ absurd (ground (arith, q, p))
      | inr (b, p) ↦ record {
        governed = ground arith;
        scoped = ground arith;
        skills_seen = a;
        seen = b;
        skills_ok = q;
        servers_ok = p;
        managed = ground (arith, q, p);
      }
    ]
  ]
