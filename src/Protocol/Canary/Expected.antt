-- ===== src/Protocol/Canary/Expected.antt =====
-- The response of a session canary against the one that is built from the routing bundle.
use toolhub.Common.{
  ℕ, String, true, false, not, ◌||◌, Option, none, some, is_none, List, [], ◌∷◌, map, length, eqb,
  ◌==◌, ◌≡◌, refl, ap, arith, inl, inr, Bool-cases, Option-cases, eq_iff,
}
use toolhub.Common.Int.{ℤ, pos, negsuc}
use toolhub.Protocol.Bundle.{ServerContract, PublishedProfile, RoutingBundle}
use toolhub.Protocol.Target.{runtime_claude, runtime_codex}
use toolhub.Protocol.Canary.Offered.{
  offered, offered_by_default, IsLeastOfKind, relay_canary_tool_count-offered,
  relay_canary_default_tool_count-offered_by_default, expected_profile-IsLeastOfKind,
}
use toolhub.Protocol.Canary.{
  CanaryProfile, CanaryMissing, CanaryProcess, CanaryResponse, is_count, relay_canary_tool_count,
  relay_canary_default_tool_count, expected_profile, is_expected, check_canary_profiles,
  bad_missing, check_processes, check_upstream, check_after_profiles, check_canary,
  validate_canary_response,
}

abbrev pub canary_profile : RoutingBundle → PublishedProfile → CanaryProfile
canary_profile b p = record {
  client_kind = p.client_kind;
  profile_id = p.profile_id;
  profile_revision_id = p.profile_revision_id;
  tool_count = pos (offered b p);
}

abbrev pub canary_process : ServerContract → CanaryProcess
canary_process s = record { server_id = s.server_id; process_count = pos 1 }

-- The response to a bundle with the hash, for the profiles of the two kinds.
abbrev pub expected_response :
    RoutingBundle → String → PublishedProfile → PublishedProfile → CanaryResponse
expected_response b hash c d = record {
  routing_bundle_hash = hash;
  profiles = canary_profile b c ∷ canary_profile b d ∷ [];
  missing_profile = record {
    behavior = "default";
    profile_id = none;
    profile_revision_id = none;
    tool_count = pos (offered_by_default b);
  };
  invalid_profile_error_code = "profile_unknown";
  concurrent_session_count = pos 2;
  upstream_processes = map canary_process b.servers;
}

is_count-eq : (z : ℤ) (n : ℕ) → is_count z n ≡ true → z ≡ pos n
unfolding is_count
is_count-eq (pos m) n h = ap pos (ground (arith, h))
is_count-eq (negsuc m) n h = cc

is_none-eq {ℓ} : {A : Type ℓ} (o : Option A) → is_none o ≡ true → o ≡ none
is_none-eq none h = refl
is_none-eq (some a) h = cc

is_expected-eq :
    (b : RoutingBundle) (p : PublishedProfile) (a : CanaryProfile)
    → is_expected b p a ≡ true
    → a ≡ canary_profile b p
unfolding is_expected
is_expected-eq b p a h = ground (
  arith,
  eq_iff a.client_kind p.client_kind,
  eq_iff a.profile_id p.profile_id,
  eq_iff a.profile_revision_id p.profile_revision_id,
  is_count-eq a.tool_count (relay_canary_tool_count b p),
  relay_canary_tool_count-offered b p,
)

check_canary_profiles-none :
    (b : RoutingBundle) (c d : PublishedProfile) (ps : List CanaryProfile)
    → check_canary_profiles b c d ps ≡ none
    → ps ≡ canary_profile b c ∷ canary_profile b d ∷ []
unfolding check_canary_profiles
check_canary_profiles-none b c d [] h = cc
check_canary_profiles-none b c d (x ∷ []) h = cc
check_canary_profiles-none b c d (x ∷ y ∷ z ∷ zs) h = cc
check_canary_profiles-none b c d (x ∷ y ∷ []) h =
    let both : (is_expected b c x ≡ true) × (is_expected b d y ≡ true) =
      (ground (arith, h), ground (arith, h)) in
    cc (is_expected-eq b c x both.0, is_expected-eq b d y both.1)

bad_missing-false :
    (b : RoutingBundle) (m : CanaryMissing)
    → bad_missing b m ≡ false
    → m ≡ record {
      behavior = "default";
      profile_id = none;
      profile_revision_id = none;
      tool_count = pos (offered_by_default b);
    }
unfolding bad_missing
bad_missing-false b m h = ground (
  arith,
  eq_iff m.behavior "default",
  is_none-eq m.profile_id,
  is_none-eq m.profile_revision_id,
  is_count-eq m.tool_count (relay_canary_default_tool_count b),
  relay_canary_default_tool_count-offered_by_default b,
)

canary_process-eq :
    (s : ServerContract) (p : CanaryProcess)
    → (p.server_id == s.server_id) ≡ true
    → is_count p.process_count 1 ≡ true
    → p ≡ canary_process s
canary_process-eq s p h k =
    ground (arith, eq_iff p.server_id s.server_id, is_count-eq p.process_count 1)

check_processes-none :
    (ss : List ServerContract) (ps : List CanaryProcess)
    → length ps ≡ length ss
    → check_processes ss ps ≡ none
    → ps ≡ map canary_process ss
unfolding check_processes
check_processes-none [] [] l h = refl
check_processes-none [] (p ∷ ps) l h = absurd (omega (arith, l))
check_processes-none (s ∷ ss) [] l h = cc
check_processes-none (s ∷ ss) (p ∷ ps) l h =
    elim (Bool-cases (not (p.server_id == s.server_id) || not (is_count p.process_count 1))) [
      | inl e ↦ absurd (ground (arith, e, h))
      | inr e ↦
          let same : p ≡ canary_process s =
            canary_process-eq s p (ground (arith, e)) (ground (arith, e)) in
          let rest : ps ≡ map canary_process ss =
            check_processes-none ss ps (omega (arith, l)) (rw (e, check_processes) at h) in
          cc (same, rest)
    ]

check_upstream-none :
    (b : RoutingBundle) (r : CanaryResponse)
    → check_upstream b r ≡ none
    → r.upstream_processes ≡ map canary_process b.servers
unfolding check_upstream
check_upstream-none b r h =
    elim (Bool-cases (eqb (length r.upstream_processes) (length b.servers))) [
      | inr e ↦ absurd (ground (arith, e, h))
      | inl e ↦
          check_processes-none b.servers r.upstream_processes (ground (arith, e))
            (rw (e, check_upstream) at h)
    ]

check_canary-none :
    (b : RoutingBundle) (r : CanaryResponse) (c d : PublishedProfile)
    → check_after_profiles b r (check_canary_profiles b c d r.profiles) ≡ none
    → (r.profiles ≡ canary_profile b c ∷ canary_profile b d ∷ [])
      × (r.missing_profile ≡ (expected_response b "" c d).missing_profile)
      × (r.upstream_processes ≡ map canary_process b.servers)
unfolding check_after_profiles
check_canary-none b r c d h = elim (Option-cases (check_canary_profiles b c d r.profiles)) [
  | inr (x, e) ↦ absurd (ground (arith, e, h))
  | inl e ↦ elim (Bool-cases (bad_missing b r.missing_profile)) [
    | inl m ↦ absurd (ground (arith, e, m, h))
    | inr m ↦ (
      check_canary_profiles-none b c d r.profiles e,
      bad_missing-false b r.missing_profile m,
      check_upstream-none b r (rw (e, check_after_profiles, m) at h),
    )
  ]
]

response-eq :
    (b : RoutingBundle) (hash : String) (r : CanaryResponse) (c d : PublishedProfile)
    → r.routing_bundle_hash ≡ hash
    → r.profiles ≡ canary_profile b c ∷ canary_profile b d ∷ []
    → r.missing_profile ≡ (expected_response b "" c d).missing_profile
    → r.invalid_profile_error_code ≡ "profile_unknown"
    → r.concurrent_session_count ≡ pos 2
    → r.upstream_processes ≡ map canary_process b.servers
    → r ≡ expected_response b hash c d
response-eq b hash r c d e f g h j k = cc

-- A response that is accepted is the one that the routing bundle determines: for Claude and for Codex a
-- profile of the kind with the least identifier, and the number of tools that it offers (those shown by
-- the first override or else by the mode, not paused, and not denied by the first rule or else by the
-- policy), the default with the number of tools neither paused nor denied, two concurrent sessions, and
-- one process for each server, in order.
pub validate_canary_response-none :
    (b : RoutingBundle) (hash : String) (r : CanaryResponse)
    → validate_canary_response b hash r ≡ none
    → (c : PublishedProfile) × (d : PublishedProfile) × IsLeastOfKind b "claude" c
      × IsLeastOfKind b "codex" d
      × (r ≡ expected_response b hash c d)
unfolding validate_canary_response check_canary
validate_canary_response-none b hash r h = elim (Option-cases (expected_profile b runtime_claude)) [
  | inl e ↦ absurd (ground (arith, e, h))
  | inr (c, e) ↦ elim (Option-cases (expected_profile b runtime_codex)) [
    | inl f ↦ absurd (ground (arith, e, f, h))
    | inr (d, f) ↦
        let rest : check_after_profiles b r (check_canary_profiles b c d r.profiles) ≡ none =
          ground (arith, e, f, h) in
        let (ps, m, us) = check_canary-none b r c d rest in
        (
          c,
          d,
          expected_profile-IsLeastOfKind b runtime_claude c e,
          expected_profile-IsLeastOfKind b runtime_codex d f,
          response-eq b hash r c d (ground (arith, h, eq_iff r.routing_bundle_hash hash)) ps m
              (ground (arith, h, eq_iff r.invalid_profile_error_code "profile_unknown"))
              (is_count-eq r.concurrent_session_count 2 (ground (arith, h))) us,
        )
  ]
]
