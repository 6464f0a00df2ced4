-- ===== src/Protocol/Canary/Offered.antt =====
-- What a profile offers of a routing bundle, and which profile stands for a kind of client, described
-- apart from the code: internal/bridgeprotocol/governance.go, the functions of the session canary.
use toolhub.Common.{
  ℕ, ◌+◌, suc, String, Bool, false, not, ◌&&◌, Option, none, some, List, [], ◌∷◌, All, ◌==◌, ◌≡◌,
  refl, ap, ◌∙◌, ◌⊎◌, inl, inr, Bool-cases, arith, eq_iff, if◌then◌else◌,
}
use toolhub.Common.Text.{text_lt}
use toolhub.Common.Sort.{sort_by}
use toolhub.Common.Sort.Least.{IsIn, IsLeast, sort_by-first}
use toolhub.Protocol.Bundle.{
  RoutingTool, ServerContract, ToolVisibilityOverride, ToolPolicyRule, ProfileServerRouting,
  PublishedProfile, RoutingBundle,
}
use toolhub.Protocol.Canary.{
  find_profile_server, visible_by, decision_by, is_offered, count_tools, server_tool_count,
  tool_count_of, relay_canary_tool_count, default_count_of, relay_canary_default_tool_count,
  of_kind, first_profile, expected_profile,
}

-- The first item that passes a test, and how many do.
abbrev first_of : {A : Type 0} → (A → Bool) → List A → Option A
first_of test [] = none
first_of test (x ∷ xs) = let rest = first_of test xs in if test x then some x else rest

abbrev number_of : {A : Type 0} → (A → Bool) → List A → ℕ
number_of test [] = 0
number_of test (x ∷ xs) = let rest = number_of test xs in if test x then suc rest else rest

-- What the first override says of a tool, else the mode; and what the first rule says, else the policy.
abbrev shows : ProfileServerRouting → RoutingTool → Bool
shows p t =
    elim (first_of (λ (o : ToolVisibilityOverride). o.tool_id == t.tool_id) p.tool_overrides) [
      | some o ↦ o.visible
      | none ↦ p.visibility_mode == "all_accepted"
    ]

abbrev denies : ProfileServerRouting → RoutingTool → Bool
denies p t = elim (first_of (λ (r : ToolPolicyRule). r.tool_id == t.tool_id) p.tool_rules) [
  | some r ↦ r.decision == "deny"
  | none ↦ t.global_decision == "deny"
]

-- A tool that is shown, does not pause and is not denied.
abbrev offers : ProfileServerRouting → RoutingTool → Bool
offers p t = shows p t && not t.paused && not (denies p t)

abbrev offered_by : Option ProfileServerRouting → ServerContract → ℕ
offered_by none s = 0
offered_by (some p) s = number_of (offers p) s.tools

abbrev offered_on : List ServerContract → PublishedProfile → ℕ
offered_on [] p = 0
offered_on (s ∷ ss) p =
    offered_by (first_of (λ (q : ProfileServerRouting). q.server_id == s.server_id) p.servers) s
    + offered_on ss p

-- The number of tools that a profile offers: on each server, by its first routing of the server.
abbrev pub offered : RoutingBundle → PublishedProfile → ℕ
offered b p = offered_on b.servers p

abbrev offered_without : List ServerContract → ℕ
offered_without [] = 0
offered_without (s ∷ ss) =
    number_of (λ (t : RoutingTool). not t.paused && not (t.global_decision == "deny")) s.tools
    + offered_without ss

-- The number of tools offered with no profile: those that do not pause and are not denied.
abbrev pub offered_by_default : RoutingBundle → ℕ
offered_by_default b = offered_without b.servers

-- A profile of the bundle, of the kind, where no profile of the kind has a lesser identifier.
abbrev pub IsLeastOfKind : RoutingBundle → String → PublishedProfile → Type 0
IsLeastOfKind b kind p =
    IsIn p b.profiles
    × (p.client_kind ≡ kind)
    × All
        (λ (q : PublishedProfile).
          ((q.client_kind == kind) ≡ false) ⊎ (text_lt q.profile_id p.profile_id ≡ false))
        b.profiles

visible_by-first_of :
    (os : List ToolVisibilityOverride) (id : String) (default : Bool)
    → visible_by os id default
      ≡ (elim (first_of (λ (o : ToolVisibilityOverride). o.tool_id == id) os) [
        | some o ↦ o.visible
        | none ↦ default
      ])
unfolding visible_by
visible_by-first_of [] id default = refl
visible_by-first_of (o ∷ os) id default = ground (arith, visible_by-first_of os id default)

decision_by-first_of :
    (rs : List ToolPolicyRule) (id global : String)
    → (decision_by rs id global == "deny")
      ≡ (elim (first_of (λ (r : ToolPolicyRule). r.tool_id == id) rs) [
        | some r ↦ r.decision == "deny"
        | none ↦ global == "deny"
      ])
unfolding decision_by
decision_by-first_of [] id global = refl
decision_by-first_of (r ∷ rs) id global = ground (arith, decision_by-first_of rs id global)

is_offered-offers : (p : ProfileServerRouting) (t : RoutingTool) → is_offered p t ≡ offers p t
unfolding is_offered
is_offered-offers p t = ground (
  arith,
  visible_by-first_of p.tool_overrides t.tool_id (p.visibility_mode == "all_accepted"),
  decision_by-first_of p.tool_rules t.tool_id t.global_decision,
)

count_tools-number_of :
    (f g : RoutingTool → Bool) (ts : List RoutingTool)
    → ((t : RoutingTool) → f t ≡ g t)
    → count_tools f ts ≡ number_of g ts
unfolding count_tools
count_tools-number_of f g [] same = refl
count_tools-number_of f g (t ∷ ts) same = ground (arith, same t, count_tools-number_of f g ts same)

find_profile_server-first_of :
    (ps : List ProfileServerRouting) (id : String)
    → find_profile_server ps id ≡ first_of (λ (q : ProfileServerRouting). q.server_id == id) ps
unfolding find_profile_server
find_profile_server-first_of [] id = refl
find_profile_server-first_of (p ∷ ps) id = ground (arith, find_profile_server-first_of ps id)

server_tool_count-offered_by :
    (o : Option ProfileServerRouting) (s : ServerContract) → server_tool_count o s ≡ offered_by o s
unfolding server_tool_count
server_tool_count-offered_by none s = refl
server_tool_count-offered_by (some p) s =
    count_tools-number_of (is_offered p) (offers p) s.tools (is_offered-offers p)

tool_count_of-offered_on :
    (ss : List ServerContract) (p : PublishedProfile) → tool_count_of ss p ≡ offered_on ss p
unfolding tool_count_of
tool_count_of-offered_on [] p = refl
tool_count_of-offered_on (s ∷ ss) p =
    let q = first_of (λ (q : ProfileServerRouting). q.server_id == s.server_id) p.servers in
    let here : server_tool_count (find_profile_server p.servers s.server_id) s ≡ offered_by q s =
      ap (λ o. server_tool_count o s) (find_profile_server-first_of p.servers s.server_id)
      ∙ server_tool_count-offered_by q s in
    omega (arith, here, tool_count_of-offered_on ss p)

pub relay_canary_tool_count-offered :
    (b : RoutingBundle) (p : PublishedProfile) → relay_canary_tool_count b p ≡ offered b p
unfolding relay_canary_tool_count
relay_canary_tool_count-offered b p = tool_count_of-offered_on b.servers p

default_count_of-offered_without :
    (ss : List ServerContract) → default_count_of ss ≡ offered_without ss
unfolding default_count_of
default_count_of-offered_without [] = refl
default_count_of-offered_without (s ∷ ss) =
    let free : RoutingTool → Bool = λ t. not t.paused && not (t.global_decision == "deny") in
    omega (
      arith,
      count_tools-number_of free free s.tools (λ t. refl),
      default_count_of-offered_without ss,
    )

pub relay_canary_default_tool_count-offered_by_default :
    (b : RoutingBundle) → relay_canary_default_tool_count b ≡ offered_by_default b
unfolding relay_canary_default_tool_count
relay_canary_default_tool_count-offered_by_default b = default_count_of-offered_without b.servers

of_kind-IsIn :
    (kind : String) (ps : List PublishedProfile) (p : PublishedProfile)
    → IsIn p (of_kind kind ps)
    → IsIn p ps × (p.client_kind ≡ kind)
unfolding of_kind
of_kind-IsIn kind [] p h = absurd h
of_kind-IsIn kind (q ∷ qs) p h = elim (Bool-cases (q.client_kind == kind)) [
  | inr e ↦ let (there, same) = of_kind-IsIn kind qs p (rw e at h) in (inr there, same)
  | inl e ↦ elim (rw e at h) [
    | inl here ↦ (
      inl here,
      ap (λ (x : PublishedProfile). x.client_kind) here ∙ (eq_iff q.client_kind kind).0 e,
    )
    | inr more ↦ let (there, same) = of_kind-IsIn kind qs p more in (inr there, same)
  ]
]

of_kind-IsLeast :
    (kind : String) (p : PublishedProfile) (ps : List PublishedProfile)
    → IsLeast (λ (q : PublishedProfile). q.profile_id) p (of_kind kind ps)
    → All
        (λ (q : PublishedProfile).
          ((q.client_kind == kind) ≡ false) ⊎ (text_lt q.profile_id p.profile_id ≡ false))
        ps
unfolding of_kind
of_kind-IsLeast kind p [] h = tt
of_kind-IsLeast kind p (q ∷ qs) h = elim (Bool-cases (q.client_kind == kind)) [
  | inr e ↦ (inl e, of_kind-IsLeast kind p qs (rw e at h))
  | inl e ↦ let (least, more) = rw e at h in (inr least, of_kind-IsLeast kind p qs more)
]

first_profile-some :
    (ps : List PublishedProfile) {p : PublishedProfile}
    → first_profile ps ≡ some p
    → (rest : List PublishedProfile) × (ps ≡ p ∷ rest)
unfolding first_profile
first_profile-some [] h = cc
first_profile-some (q ∷ qs) h = (qs, ground (arith, h))

pub expected_profile-IsLeastOfKind :
    (b : RoutingBundle) (kind : String) (p : PublishedProfile)
    → expected_profile b kind ≡ some p
    → IsLeastOfKind b kind p
unfolding expected_profile
expected_profile-IsLeastOfKind b kind p h =
    let id : PublishedProfile → String = λ (q : PublishedProfile). q.profile_id in
    let (rest, same) = first_profile-some (sort_by id (of_kind kind b.profiles)) h in
    let (there, least) = sort_by-first id (of_kind kind b.profiles) p rest same in
    let (member, kinds) = of_kind-IsIn kind b.profiles p there in
    (member, kinds, of_kind-IsLeast kind p b.profiles least)
