-- ===== src/Protocol/Manifest/Members.antt =====
-- The member identifiers of a manifest that DesiredManifest.Validate accepts.
use toolhub.Common.{
  ℕ, zero, suc, String, Bool, true, none, List, [], ◌∷◌, map, all, member, length, length-append,
  length-replicate, replicate, ok, occurrences, occurrences-append, member-eq-occurrences, IsUnique,
  ◌≡◌, refl, ◌∙◌, sym, ap, arith,
}
use toolhub.Common.Sort.{sort_by, occurrences-sort_by, length-sort_by, all-sort_by}
use toolhub.Protocol.External.{External}
use toolhub.Protocol.Manifest.{
  SkillMember, McpMember, DesiredManifest, normalize, check_skills, check_mcp_servers,
  check_governance, check_scope, check_managed, validate_normal, validate_manifest,
}
use toolhub.Protocol.Manifest.Loops.{
  skill_ids, server_ids, member_ids, check_skills-Gathered, check_mcp_servers-Gathered, Accepted,
  accepted,
}

-- The members of a manifest that is accepted, before Normalize has sorted them: no two share an
-- identifier, there are as many managed identifiers as members, and each of those is a member's.
pub record HasMembers (m : DesiredManifest) : Type 0 where
  pub unique : IsUnique (member_ids m)
  pub count : length m.managed_member_ids ≡ length (member_ids m)
  pub known : all (λ id. member id (member_ids m)) m.managed_member_ids ≡ true

-- Members that are known by their identifiers' occurrences.
all-member :
    (xs ys zs : List String)
    → ((k : String) → occurrences k ys ≡ occurrences k zs)
    → all (λ id. member id ys) xs ≡ all (λ id. member id zs) xs
all-member [] ys zs h = refl
all-member (x ∷ xs) ys zs h =
    ground
      (arith, h x, member-eq-occurrences x ys, member-eq-occurrences x zs, all-member xs ys zs h)

length-map {ℓ κ} :
    {A : Type ℓ} {B : Type κ} (f : A → B) (xs : List A) → length (map f xs) ≡ length xs
length-map f [] = refl
length-map f (x ∷ xs) = ap suc (length-map f xs)

module _ (ext : External) (m : DesiredManifest) where
  -- What the two loops have seen of the sorted members is what the members are.
  gathered_ids :
      (a b : List String)
      → check_skills ext (normalize m).skills [] ≡ ok a
      → check_mcp_servers ext (normalize m).mcp_servers a ≡ ok b
      → IsUnique b
        × ((k : String) → occurrences k b ≡ occurrences k (member_ids m))
        × (length b ≡ length (member_ids m))
  unfolding normalize
  gathered_ids a b p q =
      let g = check_skills-Gathered ext (normalize m).skills [] a p (λ k. omega arith) in
      let h = check_mcp_servers-Gathered ext (normalize m).mcp_servers a b q g.unique in
      (
        h.unique,
        λ k. omega (
          arith,
          h.holds k,
          g.holds k,
          occurrences-sort_by (λ s. s.member_id) k m.skills,
          occurrences-sort_by (λ s. s.member_id) k m.mcp_servers,
          occurrences-append k (skill_ids m.skills) (server_ids m.mcp_servers),
        ),
        omega (
          arith,
          h.size,
          g.size,
          length-map (λ (s : SkillMember). s.member_id) (normalize m).skills,
          length-map (λ (s : McpMember). s.member_id) (normalize m).mcp_servers,
          length-map (λ (s : SkillMember). s.member_id) m.skills,
          length-map (λ (s : McpMember). s.member_id) m.mcp_servers,
          length-sort_by (λ (s : SkillMember). s.member_id) m.skills,
          length-sort_by (λ (s : McpMember). s.member_id) m.mcp_servers,
          length-append {0} (skill_ids m.skills) (server_ids m.mcp_servers),
        ),
      )

  check_managed_lem :
      (ids seen : List String)
      → check_managed ids seen ≡ none
      → (length ids ≡ length seen) × (all (λ id. member id seen) ids ≡ true)
  unfolding check_managed
  check_managed_lem ids seen h = ground arith

  -- A manifest that is accepted has distinct member identifiers, as many managed identifiers as
  -- members, and no managed identifier but a member's.
  pub validate_manifest-HasMembers :
      (write : Bool) → validate_manifest ext write m ≡ ok tt → HasMembers m
  unfolding validate_manifest
  validate_manifest-HasMembers write h =
      let a = accepted ext write (normalize m) h in
      let (u, o, l) = gathered_ids a.skills_seen a.seen a.skills_ok a.servers_ok in
      let (c, k) = check_managed_lem (normalize m).managed_member_ids a.seen a.managed in
      record {
        unique = λ j. omega (arith, u j, o j);
        count = omega (arith, c, l, length-sort_by (λ (s : String). s) m.managed_member_ids);
        known =
            sym (
              all-sort_by (λ (s : String). s) (λ id. member id (member_ids m)) m.managed_member_ids)
            ∙ sym (all-member (normalize m).managed_member_ids a.seen (member_ids m) o)
            ∙ k;
      }

-- A list of one identifier, over and over.
all-replicate : (p : String → Bool) (n : ℕ) (a : String) → p a ≡ true → all p (replicate n a) ≡ true
all-replicate p zero a h = refl
all-replicate p (suc n) a h = rw h (all-replicate p n a h)

check_managed_intro :
    (ids seen : List String)
    → length ids ≡ length seen
    → all (λ id. member id seen) ids ≡ true
    → check_managed ids seen ≡ none
unfolding check_managed
check_managed_intro ids seen h k = ground arith

module _ (ext : External) where
  check_governance-managed :
      (n : DesiredManifest) (ids : List String)
      → check_governance ext (record n { managed_member_ids = ids }) ≡ check_governance ext n
  unfolding check_governance
  check_governance-managed n ids = refl

  check_scope-managed :
      (write : Bool) (n : DesiredManifest) (ids : List String)
      → check_scope ext write (record n { managed_member_ids = ids }) ≡ check_scope ext write n
  unfolding check_scope
  check_scope-managed write n ids = refl

  -- Other managed identifiers are accepted where their own check accepts them.
  validate_normal-managed :
      (write : Bool) (n : DesiredManifest) (ids : List String) (a : Accepted ext write n)
      → check_managed ids a.seen ≡ none
      → validate_normal ext write (record n { managed_member_ids = ids }) ≡ ok tt
  unfolding validate_normal
  validate_normal-managed write n ids a h = ground (
    arith,
    check_governance-managed n ids,
    check_scope-managed write n ids,
    a.governed,
    a.scoped,
    a.skills_ok,
    a.servers_ok,
  )

  -- The managed identifiers of an accepted manifest may be replaced by one member's identifier, as
  -- often as there are members, and the manifest is still accepted.
  pub validate_manifest-replicate :
      (m : DesiredManifest) (write : Bool) (id : String)
      → validate_manifest ext write m ≡ ok tt
      → member id (member_ids m) ≡ true
      → validate_manifest ext write
          (record m { managed_member_ids = replicate (length (member_ids m)) id })
        ≡ ok tt
  unfolding validate_manifest
  validate_manifest-replicate m write id h k =
      let a = accepted ext write (normalize m) h in
      let (u, o, l) = gathered_ids ext m a.skills_seen a.seen a.skills_ok a.servers_ok in
      let ids = replicate (length (member_ids m)) id in
      let known : member id a.seen ≡ true =
        ground
          (arith, o id, member-eq-occurrences id a.seen, member-eq-occurrences id (member_ids m)) in
      let sorted = sort_by (λ (s : String). s) ids in
      let found =
        all-sort_by (λ (s : String). s) (λ j. member j a.seen) ids
        ∙ all-replicate (λ j. member j a.seen) (length (member_ids m)) id known in
      let size : length sorted ≡ length a.seen = omega (
        arith,
        l,
        length-sort_by (λ (s : String). s) ids,
        length-replicate (length (member_ids m)) id,
      ) in
      validate_normal-managed write (normalize m) sorted a
        (check_managed_intro sorted a.seen size found)
