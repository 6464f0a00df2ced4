-- ===== src/Protocol/Governance/Laws.antt =====
-- What a routing bundle that RoutingBundle.Validate accepts is.
use toolhub.Common.{
  ◌==◌, ◌⊎◌, Bool-cases, ℕ, ◌+◌, ◌≤◌, String, true, false, Option, none, some, List, [], ◌∷◌, ok,
  >>=-eq-ok, All, length, ltb, ◌≡◌, ◌≢◌, refl, eq_iff, arith, Option-cases, Result-cases, inl, inr,
}
use toolhub.Protocol.Bundle.{
  RoutingTool, ServerContract, ToolPolicyRule, ProfileServerRouting, PublishedProfile,
  RoutingBundle,
}
use toolhub.Protocol.External.{External}
use toolhub.Protocol.Governance.{
  decision_rank, find_routing_server, find_routing_tool, same_optional, ServerScan, check_servers,
  check_rules, loosens, is_pinned, check_profile_server, check_profile_servers, check_profile,
  check_profiles, empty_scan, validate_bundle,
}

-- The rule is about a tool of the server, and its decision is at least as strict as the global one.
abbrev pub Tightens : List RoutingTool → ToolPolicyRule → Type 0
Tightens tools r =
    (t : RoutingTool) × (find_routing_tool tools r.tool_id ≡ some t)
    × (decision_rank t.global_decision ≤ decision_rank r.decision)

-- The profile's server is one of the bundle's, at the bundle's revision and contract, and every rule
-- of the profile on it tightens.
abbrev pub IsPinned : String → List ServerContract → ProfileServerRouting → Type 0
IsPinned mode servers p =
    (s : ServerContract) × (find_routing_server servers p.server_id ≡ some s)
    × (p.mcp_config_revision_id ≡ s.mcp_config_revision_id)
    × (p.accepted_contract_revision_id ≡ s.accepted_contract_revision_id)
    × ((mode ≢ "enforced") ⊎ (p.accepted_contract_revision_id ≢ none))
    × All (Tightens s.tools) p.tool_rules

-- Every server of the profile is pinned.
abbrev pub IsServed : String → List ServerContract → PublishedProfile → Type 0
IsServed mode servers p = All (IsPinned mode servers) p.servers

loosens-Tightens :
    (tools : List RoutingTool) (r : ToolPolicyRule) → loosens tools r ≡ false → Tightens tools r
unfolding loosens
loosens-Tightens tools r h = elim (Option-cases (find_routing_tool tools r.tool_id)) [
  | inl e ↦ absurd (ground (arith, e))
  | inr (t, e) ↦ (t, e, ground (arith, e))
]

same_optional-eq : (a b : Option String) → same_optional a b ≡ true → a ≡ b
unfolding same_optional
same_optional-eq none none h = refl
same_optional-eq (some a) (some b) h = ground (arith, eq_iff a b)
same_optional-eq none (some b) h = cc
same_optional-eq (some a) none h = cc

module _ (ext : External) where
  check_rules-All :
      (tools : List RoutingTool) (rs : List ToolPolicyRule) (seen : List String)
      → check_rules ext tools rs seen ≡ none
      → All (Tightens tools) rs
  unfolding check_rules
  check_rules-All tools [] seen h = tt
  check_rules-All tools (r ∷ rs) seen h = (
    loosens-Tightens tools r (ground arith),
    check_rules-All tools rs (r.tool_id ∷ seen) (ground arith),
  )

  check_profile_server-IsPinned :
      (mode : String) (servers : List ServerContract) (seen : List String)
      (p : ProfileServerRouting) (s : ServerContract)
      → find_routing_server servers p.server_id ≡ some s
      → check_profile_server ext mode seen p s ≡ none
      → IsPinned mode servers p
  unfolding check_profile_server is_pinned
  check_profile_server-IsPinned mode servers seen p s found h = (
    s,
    found,
    ground (arith, eq_iff p.mcp_config_revision_id s.mcp_config_revision_id),
    same_optional-eq p.accepted_contract_revision_id s.accepted_contract_revision_id (ground arith),
    elim (Bool-cases (mode == "enforced")) [
      | inl e ↦ inr (λ q. ground (arith, e))
      | inr e ↦ inl (λ q. ground (arith, e, eq_iff mode "enforced", q))
    ],
    check_rules-All s.tools p.tool_rules [] (ground arith),
  )

  check_profile_servers-All :
      (mode : String) (servers : List ServerContract) (ps : List ProfileServerRouting)
      (seen : List String) (rules total : ℕ)
      → check_profile_servers ext mode servers ps seen rules ≡ ok total
      → All (IsPinned mode servers) ps
  unfolding check_profile_servers
  check_profile_servers-All mode servers [] seen rules total h = tt
  check_profile_servers-All mode servers (p ∷ ps) seen rules total h =
      elim (Option-cases (find_routing_server servers p.server_id)) [
        | inl e ↦ absurd (ground (arith, e))
        | inr (s, e) ↦ (
          check_profile_server-IsPinned mode servers seen p s e (ground (arith, e)),
          check_profile_servers-All mode servers ps (p.server_id ∷ seen)
              (rules + length p.tool_rules) total (ground (arith, e)),
        )
      ]

  check_profiles-All :
      (mode : String) (servers : List ServerContract) (ps : List PublishedProfile)
      (ids names : List String) (rules : ℕ) (r : List String × ℕ)
      → check_profiles ext mode servers ps ids names rules ≡ ok r
      → All (IsServed mode servers) ps
  unfolding check_profiles
  check_profiles-All mode servers [] ids names rules r h = tt
  check_profiles-All mode servers (p ∷ ps) ids names rules r h =
      elim (Option-cases (check_profile ext p ids names)) [
        | inr (e, q) ↦ absurd (ground (arith, q))
        | inl q ↦
            let (total, e, f) =
              >>=-eq-ok (check_profile_servers ext mode servers p.servers [] rules)
                (λ total.
                  check_profiles ext mode servers ps (p.profile_id ∷ ids) (p.profile_name ∷ names)
                    total)
                (rw (q, check_profiles) at h) in
            (
              check_profile_servers-All mode servers p.servers [] rules total e,
              check_profiles-All mode servers ps (p.profile_id ∷ ids) (p.profile_name ∷ names) total
                  r f,
            )
      ]

  -- The loops of an accepted bundle have returned their results.
  pub validate_bundle-loops :
      (b : RoutingBundle)
      → validate_bundle ext b ≡ ok tt
      → ((scan : ServerScan) × (check_servers ext b.mode
              (ltb 1 (length b.servers))
              b.servers
              empty_scan
            ≡ ok scan))
        × ((r : List String × ℕ) × (check_profiles ext b.mode b.servers b.profiles [] [] 0 ≡ ok r))
  unfolding validate_bundle
  validate_bundle-loops b h =
      elim (Result-cases
        (check_servers ext b.mode (ltb 1 (length b.servers)) b.servers empty_scan)) [
          | inl (e, q) ↦ absurd (ground (arith, q))
          | inr (scan, q) ↦
              elim (Result-cases (check_profiles ext b.mode b.servers b.profiles [] [] 0)) [
                | inl (e, p) ↦ absurd (ground (arith, q, p))
                | inr (r, p) ↦ ((scan, q), (r, p))
              ]
        ]

  -- A bundle that is accepted pins every server of every profile to the bundle's own server, revision
  -- and accepted contract, pins no unaccepted contract in enforced mode, and has no profile rule that
  -- loosens the global decision on its tool.
  pub validate_bundle-IsServed :
      (b : RoutingBundle)
      → validate_bundle ext b ≡ ok tt
      → All (IsServed b.mode b.servers) b.profiles
  validate_bundle-IsServed b h =
      let (r, e) = (validate_bundle-loops b h).1 in
      check_profiles-All b.mode b.servers b.profiles [] [] 0 r e
