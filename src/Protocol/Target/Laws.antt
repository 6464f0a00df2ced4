-- ===== src/Protocol/Target/Laws.antt =====
-- What Target.Validate accepts.
use toolhub.Common.{
  Bool, true, false, none, some, ◌==◌, ◌≡◌, ◌≢◌, ◌⊎◌, ◌↔◌, ap, sym, ◌∙◌, arith, inl, inr,
  Bool-cases, eq_iff,
}
use toolhub.Protocol.External.{External}
use toolhub.Protocol.Target.{
  Target, hermes_read_only, validate_runtime, validate_target, runtime_claude, runtime_codex,
  runtime_hermes, runtime_shared_relay, node_kind_local, node_kind_salt,
}

validate_runtime-hermes :
    (t : Target) → t.runtime ≡ runtime_hermes → validate_runtime true t ≡ some hermes_read_only
unfolding validate_runtime
validate_runtime-hermes t e = ground (
  arith,
  ap (λ s. s == runtime_claude) e,
  ap (λ s. s == runtime_codex) e,
  ap (λ s. s == runtime_hermes) e,
)

validate_runtime-write :
    (t : Target)
    → validate_runtime true t ≡ none
    → (validate_runtime false t ≡ none) × (t.runtime ≢ runtime_hermes)
unfolding validate_runtime
validate_runtime-write t h = (ground arith, λ e. cc (sym (validate_runtime-hermes t e) ∙ h))

validate_runtime-read :
    (t : Target)
    → validate_runtime false t ≡ none
    → t.runtime ≢ runtime_hermes
    → validate_runtime true t ≡ none
unfolding validate_runtime
validate_runtime-read t h n = ground (arith, eq_iff t.runtime runtime_hermes)

validate_runtime_cases :
    (write : Bool) (t : Target)
    → validate_runtime write t ≡ none
    → ((t.runtime ≡ runtime_claude)
        ⊎ (t.runtime ≡ runtime_codex)
        ⊎ (t.runtime ≡ runtime_hermes)
        ⊎ (t.runtime ≡ runtime_shared_relay))
      × (t.runtime ≡ runtime_shared_relay → t.node_kind ≡ node_kind_local)
unfolding validate_runtime
validate_runtime_cases write t h = (
  ground (
    arith,
    eq_iff t.runtime runtime_hermes,
    eq_iff t.runtime runtime_claude,
    eq_iff t.runtime runtime_codex,
    eq_iff t.runtime runtime_shared_relay,
  ),
  λ e. relay_local e,
)
  where
    relay_local : t.runtime ≡ runtime_shared_relay → t.node_kind ≡ node_kind_local
    relay_local e = ground (
      arith,
      eq_iff t.node_kind node_kind_local,
      eq_iff t.runtime runtime_shared_relay,
      ap (λ s. s == runtime_claude) e,
      ap (λ s. s == runtime_codex) e,
      ap (λ s. s == runtime_hermes) e,
    )

module _ (ext : External) where
  -- A target is accepted for writing exactly when it is accepted for reading and is not Hermes.
  pub validate_target-write :
      (t : Target)
      → (validate_target ext true t ≡ none)
        ↔ ((validate_target ext false t ≡ none) × (t.runtime ≢ runtime_hermes))
  unfolding validate_target
  validate_target-write t = (
    λ h. ground (arith, validate_runtime-write t),
    λ h. ground (arith, validate_runtime-read t (ground arith) h.1),
  )

  -- An accepted target's node kind is local or salt, its runtime is one of the four, and the shared
  -- relay is local.
  pub validate_target-runtime :
      (write : Bool) (t : Target)
      → validate_target ext write t ≡ none
      → ((t.node_kind ≡ node_kind_local) ⊎ (t.node_kind ≡ node_kind_salt))
        × ((t.runtime ≡ runtime_claude)
            ⊎ (t.runtime ≡ runtime_codex)
            ⊎ (t.runtime ≡ runtime_hermes)
            ⊎ (t.runtime ≡ runtime_shared_relay))
        × ((t.runtime ≢ runtime_shared_relay) ⊎ (t.node_kind ≡ node_kind_local))
  unfolding validate_target
  validate_target-runtime write t h =
      let (cases, local) = validate_runtime_cases write t (ground arith) in
      (
        ground (arith, eq_iff t.node_kind node_kind_local, eq_iff t.node_kind node_kind_salt),
        cases,
        elim (Bool-cases (t.runtime == runtime_shared_relay)) [
          | inl e ↦ inr (local ((eq_iff t.runtime runtime_shared_relay).0 e))
          | inr e ↦ inl (λ q. ground (arith, e, eq_iff t.runtime runtime_shared_relay, q))
        ],
      )
