-- ===== src/Protocol/Manifest/Scope.antt =====
-- What an accepted manifest's target may be, and what the manifest may then contain.
use toolhub.Common.{
  ℕ, ◌≤◌, String, ◌⊎◌, inl, inr, Bool-cases, Bool, true, false, none, List, [], ◌∷◌, length, ok,
  ◌==◌, ◌≡◌, ◌≢◌, refl, sym, ◌∙◌, arith, eq_iff,
}
use toolhub.Common.Sort.{length-sort_by}
use toolhub.Common.Int.{ℤ, pos, negsuc, ltb_ℤ}
use toolhub.Protocol.External.{External}
use toolhub.Protocol.Target.{validate_target, runtime_hermes, runtime_shared_relay, node_kind_local}
use toolhub.Protocol.Target.Laws.{validate_target-write}
use toolhub.Protocol.Manifest.{
  SkillMember, McpMember, DesiredManifest, normalize, check_scope, validate_manifest,
}
use toolhub.Protocol.Manifest.Loops.{accepted}

-- What the target allows the manifest to hold.
pub record IsScoped (m : DesiredManifest) : Type 0 where
  pub relay_port :
      (m.target.runtime ≢ runtime_shared_relay)
      ⊎ ((p : ℕ) × (m.relay_port ≡ pos p) × (1 ≤ p) × (p ≤ 65535))
  pub relay_skills : (m.target.runtime ≢ runtime_shared_relay) ⊎ (m.skills ≡ [])
  pub local_servers :
      ((m.target.node_kind ≢ node_kind_local) ⊎ (m.target.runtime ≡ runtime_shared_relay))
      ⊎ (m.mcp_servers ≡ [])

unless {ℓ} : {A : Type ℓ} (s t : String) → ((s == t) ≡ true → A) → (s ≢ t) ⊎ A
unless s t f = elim (Bool-cases (s == t)) [
  | inl e ↦ inr (f e)
  | inr e ↦ inl (λ q. ground (arith, e, eq_iff s t, q))
]

nil_of_length {ℓ} : {A : Type ℓ} (xs : List A) → length xs ≡ 0 → xs ≡ []
nil_of_length [] h = refl
nil_of_length (x ∷ xs) h = absurd (omega arith)

port_range :
    (z : ℤ)
    → ltb_ℤ z (pos 1) ≡ false
    → ltb_ℤ (pos 65535) z ≡ false
    → (p : ℕ) × (z ≡ pos p) × (1 ≤ p) × (p ≤ 65535)
port_range (pos n) h k = (n, refl, ground arith, ground arith)
port_range (negsuc n) h k = absurd (ground arith)

-- The same of a manifest as it was sorted, with the lists' lengths.
record Tests (m : DesiredManifest) : Type 0 where
  port_low : (m.target.runtime == runtime_shared_relay) ≡ true → ltb_ℤ m.relay_port (pos 1) ≡ false
  port_high :
      (m.target.runtime == runtime_shared_relay) ≡ true → ltb_ℤ (pos 65535) m.relay_port ≡ false
  no_skills : (m.target.runtime == runtime_shared_relay) ≡ true → length m.skills ≡ 0
  no_servers :
      (m.target.node_kind == node_kind_local) ≡ true
      → (m.target.runtime == runtime_shared_relay) ≡ false
      → length m.mcp_servers ≡ 0

module _ (ext : External) where
  check_scope-Tests :
      (write : Bool) (m : DesiredManifest)
      → check_scope ext write m ≡ none
      → (validate_target ext write m.target ≡ none) × Tests m
  unfolding check_scope
  check_scope-Tests write m h = (
    ground arith,
    record {
      port_low = λ e. ground arith;
      port_high = λ e. ground arith;
      no_skills = λ e. ground arith;
      no_servers = λ e f. ground arith;
    },
  )

  -- An accepted manifest has an accepted target. On the shared relay it has a port from 1 to 65535
  -- and no Skills; on another local target it has no MCP servers.
  pub validate_manifest-IsScoped :
      (write : Bool) (m : DesiredManifest)
      → validate_manifest ext write m ≡ ok tt
      → (validate_target ext write m.target ≡ none) × IsScoped m
  unfolding validate_manifest normalize
  validate_manifest-IsScoped write m h =
      let a = accepted ext write (normalize m) h in
      let (t, c) = check_scope-Tests write (normalize m) a.scoped in
      let skills = length-sort_by (λ (s : SkillMember). s.member_id) m.skills in
      let servers = length-sort_by (λ (s : McpMember). s.member_id) m.mcp_servers in
      (
        t,
        record {
          relay_port =
              unless m.target.runtime runtime_shared_relay
                (λ e. port_range m.relay_port (c.port_low e) (c.port_high e));
          relay_skills =
              unless m.target.runtime runtime_shared_relay
                (λ e. nil_of_length m.skills (sym skills ∙ c.no_skills e));
          local_servers = elim (Bool-cases (m.target.runtime == runtime_shared_relay)) [
            | inl e ↦ inl (inr ((eq_iff m.target.runtime runtime_shared_relay).0 e))
            | inr e ↦
                elim (unless m.target.node_kind node_kind_local
                  (λ f. nil_of_length m.mcp_servers (sym servers ∙ c.no_servers f e))) [
                    | inl n ↦ inl (inl n)
                    | inr q ↦ inr q
                  ]
          ];
        },
      )

  -- No manifest for a Hermes target is accepted for writing.
  pub validate_manifest-ne-hermes :
      (m : DesiredManifest)
      → validate_manifest ext true m ≡ ok tt
      → m.target.runtime ≢ runtime_hermes
  validate_manifest-ne-hermes m h =
      ((validate_target-write ext m.target).0 (validate_manifest-IsScoped true m h).0).1
