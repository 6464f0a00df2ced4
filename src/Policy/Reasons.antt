-- ===== src/Policy/Reasons.antt =====
-- internal/policy/catalog.go: the reason codes, ValidateReasonCode and ValidateDecision.
use toolhub.Common.{
  Char, String, Bool, true, false, not, ◌||◌, ◌&&◌, List, [], ◌∷◌, ◌++◌, all, member, ◌≡◌, refl,
  arith, if◌then◌else◌, ◌==◌,
}
use toolhub.Policy.{
  annotation_bool, ToolDescriptor, Reason, Classification, reason, add_reason, raise,
  valid_decision, Marker, markers, raise_markers, contains_any, apply_override, apply_hints,
  apply_schema, settle, classify, decision_deny, decision_confirm, decision_allow,
}

abbrev valid_reason_codes : List String
valid_reason_codes =
    "explicit_override" ∷ "annotation_deny" ∷ "annotation_destructive" ∷ "annotation_mutating"
    ∷ "annotation_read_only" ∷ "catalog_destructive" ∷ "catalog_credential"
    ∷ "catalog_external_publish" ∷ "catalog_financial" ∷ "catalog_command_execution"
    ∷ "schema_mutating" ∷ "unclassified_mutating" ∷ "reviewed_read_only" ∷ "unclassified"
    ∷ "operator_review" ∷ "compatibility-mode" ∷ "profile-rule" ∷ "schema_changed"
    ∷ "presentation_changed" ∷ "server_visibility" ∷ "rename_confirmed" ∷ []

pub validate_decision : String → Bool
validate_decision value = valid_decision value

unfoldable pub validate_reason_code : String → Bool
validate_reason_code value = member value valid_reason_codes

-- Every reason has a valid code.
HasCodes : Classification → Type 0
HasCodes r = all (λ (x : Reason). validate_reason_code x.code) r.reasons ≡ true

all-append_one :
    (f : Reason → Bool) (xs : List Reason) (x : Reason)
    → all f xs ≡ true
    → f x ≡ true
    → all f (xs ++ (x ∷ [])) ≡ true
all-append_one f [] x h k = ground (arith, k)
all-append_one f (y ∷ ys) x h k = ground (arith, all-append_one f ys x (ground arith) k, h)

add_reason-HasCodes :
    (r : Classification) (c : String)
    → HasCodes r
    → validate_reason_code c ≡ true
    → HasCodes (add_reason r c)
unfolding HasCodes
add_reason-HasCodes r c h k = all-append_one _ r.reasons (reason c) h k

raise-HasCodes :
    (r : Classification) (d c : String)
    → HasCodes r
    → validate_reason_code c ≡ true
    → HasCodes (raise r d c)
unfolding HasCodes raise
raise-HasCodes r d c h k = all-append_one _ r.reasons (reason c) h k

if-HasCodes :
    (b : Bool) (r q : Classification) → HasCodes r → HasCodes q → HasCodes (if b then r else q)
if-HasCodes true r q h k = h
if-HasCodes false r q h k = k

-- The same of a list of markers.
MarkersHaveCodes : List Marker → Type 0
MarkersHaveCodes ms = all (λ (m : Marker). validate_reason_code m.code) ms ≡ true

markers_have_codes : MarkersHaveCodes markers
unfolding MarkersHaveCodes validate_reason_code
markers_have_codes = refl

raise_markers-HasCodes :
    (name : String) (ms : List Marker) (r : Classification)
    → MarkersHaveCodes ms
    → HasCodes r
    → HasCodes (raise_markers name ms r)
unfolding raise_markers MarkersHaveCodes
raise_markers-HasCodes name [] r m h = h
raise_markers-HasCodes name (x ∷ xs) r m h =
    raise_markers-HasCodes name xs
      (if contains_any name x.patterns then raise r decision_confirm x.code else r)
      (ground (arith, m))
      (if-HasCodes (contains_any name x.patterns) (raise r decision_confirm x.code) r
        (raise-HasCodes r decision_confirm x.code h (ground (arith, m))) h)

start-HasCodes : HasCodes (record { version = 1; decision = decision_allow; reasons = [] })
unfolding HasCodes
start-HasCodes = refl

-- A reason that is added, with any decision.
reason-HasCodes :
    (r : Classification) (d c : String)
    → HasCodes r
    → validate_reason_code c ≡ true
    → HasCodes (record r { decision = d; reasons = r.reasons ++ reason c ∷ [] })
unfolding HasCodes
reason-HasCodes r d c h k = all-append_one _ r.reasons (reason c) h k

module _ (unicode_lower : Char → Char) where
  apply_override-HasCodes :
      (tool : ToolDescriptor) (r : Classification)
      → HasCodes r
      → HasCodes (apply_override unicode_lower tool r)
  unfolding apply_override validate_reason_code
  apply_override-HasCodes tool r h =
      if-HasCodes (valid_decision tool.explicit_override) _ r
        (reason-HasCodes r tool.explicit_override "explicit_override" h refl) h

  apply_hints-HasCodes :
      (tool : ToolDescriptor) (read_only : Bool) (r : Classification)
      → HasCodes r
      → HasCodes (apply_hints unicode_lower tool read_only r)
  unfolding apply_hints validate_reason_code
  apply_hints-HasCodes tool read_only r h =
      let a =
        if-HasCodes
          (annotation_bool tool.annotations "destructiveHint"
            || annotation_bool tool.annotations "destructive")
          _ _ (raise-HasCodes r decision_confirm "annotation_destructive" h refl) h in
      let b =
        if-HasCodes
          (annotation_bool tool.annotations "mutatingHint"
            || annotation_bool tool.annotations "mutating")
          _ _ (raise-HasCodes _ decision_confirm "annotation_mutating" a refl) a in
      if-HasCodes (read_only && not tool.mutating) _ _
        (add_reason-HasCodes _ "annotation_read_only" b refl) b

  apply_schema-HasCodes :
      (tool : ToolDescriptor) (r : Classification)
      → HasCodes r
      → HasCodes (apply_schema unicode_lower tool r)
  unfolding apply_schema validate_reason_code
  apply_schema-HasCodes tool r h =
      if-HasCodes _ _ r (raise-HasCodes r decision_confirm "schema_mutating" h refl) h

  settle-HasCodes :
      (tool : ToolDescriptor) (read_only : Bool) (r : Classification)
      → HasCodes r
      → HasCodes (settle unicode_lower tool read_only r)
  unfolding settle validate_reason_code
  settle-HasCodes tool read_only r h = if-HasCodes (r.decision == decision_confirm) r _ h (
      if-HasCodes tool.mutating _ _
        (raise-HasCodes r decision_confirm "unclassified_mutating" h refl)
        (if-HasCodes (not read_only) _ _ (raise-HasCodes r decision_confirm "unclassified" h refl)
          (add_reason-HasCodes r "reviewed_read_only" h refl)))

  classify-HasCodes : (tool : ToolDescriptor) → HasCodes (classify unicode_lower tool)
  unfolding classify validate_reason_code
  classify-HasCodes tool =
      let o =
        apply_override-HasCodes tool
          (record { version = 1; decision = decision_allow; reasons = [] }) start-HasCodes in
      if-HasCodes _ _ _ o (
        if-HasCodes _ _ _ (reason-HasCodes _ decision_deny "annotation_deny" o refl) (
          settle-HasCodes tool _ _ (
            apply_schema-HasCodes tool _ (
              raise_markers-HasCodes _ markers _ markers_have_codes
                (apply_hints-HasCodes tool _ _ o)))))

  -- Every reason that Classify gives has a code that ValidateReasonCode accepts.
  pub classify-validate_reason_code :
      (tool : ToolDescriptor)
      → all (λ (x : Reason). validate_reason_code x.code) (classify unicode_lower tool).reasons
        ≡ true
  unfolding HasCodes
  classify-validate_reason_code tool = classify-HasCodes tool
