-- ===== src/Policy/Decisions.antt =====
-- What Classify and EffectiveDecision decide.
use toolhub.Common.{
  ℕ, Char, String, Bool, true, false, not, ◌||◌, List, [], ◌∷◌, ◌≡◌, refl, ◌∙◌, ◌⊎◌, inl, inr, any,
  ◌==◌, if◌then◌else◌, arith, Bool-cases, eq_iff,
}
use Prim.Native.Nat.{max}
use toolhub.Policy.{
  Reason, reason, catalog_version, ToolDescriptor, Classification, Marker, decision_allow,
  decision_confirm, decision_deny, valid_decision, decision_rank, raise, raise_markers,
  contains_any, annotation_bool, is_denied, is_read_only, searched_text, markers, apply_override,
  apply_hints, apply_schema, settle, classify, schema_suggests_mutation, effective_decision,
}

-- Between its guards the classifier holds one of two decisions.
abbrev IsOpen : Classification → Type 0
IsOpen r = (r.decision ≡ decision_allow) ⊎ (r.decision ≡ decision_confirm)

-- `s` has the decision of `r`, raised to confirm if `b`.
abbrev Raised : Bool → Classification → Classification → Type 0
Raised b r s = s.decision ≡ (if b then decision_confirm else r.decision)

Raised-IsOpen : (b : Bool) (r s : Classification) → Raised b r s → IsOpen r → IsOpen s
Raised-IsOpen true r s h o = inr h
Raised-IsOpen false r s h (inl e) = inl (h ∙ e)
Raised-IsOpen false r s h (inr e) = inr (h ∙ e)

Raised-trans :
    (b c : Bool) (r s t : Classification) → Raised b r s → Raised c s t → Raised (b || c) r t
Raised-trans true true r s t p q = q
Raised-trans true false r s t p q = q ∙ p
Raised-trans false true r s t p q = q
Raised-trans false false r s t p q = q ∙ p

raise_confirm :
    (r : Classification) (c : String)
    → IsOpen r
    → (raise r decision_confirm c).decision ≡ decision_confirm
unfolding raise decision_rank
raise_confirm r c (inl e) = rw e
raise_confirm r c (inr e) = rw e

-- Some marker of the list has a pattern in the text.
pub is_marked : String → List Marker → Bool
is_marked name ms = any (λ m. contains_any name m.patterns) ms

raise_markers_lem :
    (name : String) (ms : List Marker) (r : Classification)
    → IsOpen r
    → Raised (is_marked name ms) r (raise_markers name ms r)
unfolding raise_markers is_marked
raise_markers_lem name [] r h = refl
raise_markers_lem name (m ∷ ms) r h = ground (
  arith,
  raise_confirm r m.code h,
  raise_markers_lem name ms r h,
  raise_markers_lem name ms (raise r decision_confirm m.code) (inr (raise_confirm r m.code h)),
)

-- An annotation hints that the tool destroys or mutates.
pub is_hinted : ToolDescriptor → Bool
is_hinted tool =
    annotation_bool tool.annotations "destructiveHint"
    || annotation_bool tool.annotations "destructive"
    || annotation_bool tool.annotations "mutatingHint"
    || annotation_bool tool.annotations "mutating"

pub schema_mutates : (Char → Char) → ToolDescriptor → Bool
schema_mutates u tool =
    schema_suggests_mutation u tool.input_schema || schema_suggests_mutation u tool.output_schema

module _ (unicode_lower : Char → Char) where
  apply_hints_lem :
      (tool : ToolDescriptor) (read_only : Bool) (r : Classification)
      → IsOpen r
      → Raised (is_hinted tool) r (apply_hints unicode_lower tool read_only r)
  unfolding apply_hints is_hinted
  apply_hints_lem tool read_only r h = ground (
    arith,
    raise_confirm r "annotation_destructive" h,
    raise_confirm r "annotation_mutating" h,
    raise_confirm (raise r decision_confirm "annotation_destructive") "annotation_mutating"
        (inr (raise_confirm r "annotation_destructive" h)),
  )

  apply_schema_lem :
      (tool : ToolDescriptor) (r : Classification)
      → IsOpen r
      → Raised (schema_mutates unicode_lower tool) r (apply_schema unicode_lower tool r)
  unfolding apply_schema schema_mutates
  apply_schema_lem tool r h = ground (arith, raise_confirm r "schema_mutating" h)

  settle_lem :
      (tool : ToolDescriptor) (read_only : Bool) (r : Classification)
      → IsOpen r
      → Raised (tool.mutating || not read_only) r (settle unicode_lower tool read_only r)
  unfolding settle
  settle_lem tool read_only r h = ground (
    arith,
    eq_iff r.decision decision_confirm,
    raise_confirm r "unclassified_mutating" h,
    raise_confirm r "unclassified" h,
  )

  -- What makes the classifier raise a tool from allow to confirm.
  pub is_flagged : ToolDescriptor → Bool
  is_flagged tool =
      is_hinted tool
      || (is_marked (searched_text unicode_lower tool) markers
          || (schema_mutates unicode_lower tool
              || (tool.mutating || not (is_read_only unicode_lower tool))))

  -- The decision by a table: an override to deny or a deny annotation, then an override to confirm
  -- or anything that flags the tool, then allow.
  abbrev pub decision_table : ToolDescriptor → String
  decision_table tool =
      if tool.explicit_override == decision_deny || is_denied unicode_lower tool.annotations
      then decision_deny
      else if tool.explicit_override == decision_confirm || is_flagged tool
      then decision_confirm
      else decision_allow

  -- The classifier's result once no guard has returned.
  staged : ToolDescriptor → Classification → Classification
  staged tool r =
      let read_only = is_read_only unicode_lower tool in
      settle unicode_lower tool read_only (
        apply_schema unicode_lower tool (
          raise_markers (searched_text unicode_lower tool) markers
            (apply_hints unicode_lower tool read_only r)))

  staged-Raised :
      (tool : ToolDescriptor) (r : Classification)
      → IsOpen r
      → Raised (is_flagged tool) r (staged tool r)
  unfolding staged is_flagged
  staged-Raised tool r h =
      let ro = is_read_only unicode_lower tool in
      let text = searched_text unicode_lower tool in
      let hinted = is_hinted tool in
      let marked = is_marked text markers in
      let schema = schema_mutates unicode_lower tool in
      let r1 = apply_hints unicode_lower tool ro r in
      let e1 = apply_hints_lem tool ro r h in
      let o1 = Raised-IsOpen hinted r r1 e1 h in
      let r2 = raise_markers text markers r1 in
      let e2 = raise_markers_lem text markers r1 o1 in
      let o2 = Raised-IsOpen marked r1 r2 e2 o1 in
      let r3 = apply_schema unicode_lower tool r2 in
      let e3 = apply_schema_lem tool r2 o2 in
      let o3 = Raised-IsOpen schema r2 r3 e3 o2 in
      let r4 = settle unicode_lower tool ro r3 in
      let e4 = settle_lem tool ro r3 o3 in
      let rest = tool.mutating || not ro in
      Raised-trans hinted (marked || (schema || rest)) r r1 r4 e1
        (Raised-trans marked (schema || rest) r1 r2 r4 e2 (Raised-trans schema rest r2 r3 r4 e3 e4))

  staged_at :
      (tool : ToolDescriptor) (d : String) (rs : List Reason) (v : ℕ)
      → (d ≡ decision_allow) ⊎ (d ≡ decision_confirm)
      → (staged tool (record { version = v; decision = d; reasons = rs })).decision
        ≡ (if is_flagged tool then decision_confirm else d)
  staged_at tool d rs v h =
      staged-Raised tool (record { version = v; decision = d; reasons = rs }) h

  -- Classify decides by the table.
  pub classify-decision_table :
      (tool : ToolDescriptor) → (classify unicode_lower tool).decision ≡ decision_table tool
  unfolding classify valid_decision staged apply_override
  classify-decision_table tool =
      let o = tool.explicit_override in
      ground (
        arith,
        eq_iff o decision_deny,
        eq_iff o decision_confirm,
        eq_iff o decision_allow,
        staged_at tool decision_allow [] catalog_version (inl refl),
        staged_at tool decision_allow (reason "explicit_override" ∷ []) catalog_version (inl refl),
        staged_at tool decision_confirm (reason "explicit_override" ∷ []) catalog_version
            (inr refl),
      )

-- What an unknown decision counts as.
abbrev pub or_confirm : String → String
or_confirm d = if valid_decision d then d else decision_confirm

or_confirm-valid : (d : String) → valid_decision (or_confirm d) ≡ true
unfolding valid_decision
or_confirm-valid d = elim (Bool-cases (valid_decision d)) [ inl e ↦ rw e e | inr e ↦ rw e ]

-- The effective decision is valid, it is one of the two, and its rank is the larger of their ranks,
-- where an unknown decision counts as confirm.
pub effective_decision-max :
    (global profile : String)
    → (valid_decision (effective_decision global profile) ≡ true)
      × ((effective_decision global profile ≡ or_confirm global)
          ⊎ (effective_decision global profile ≡ or_confirm profile))
      × (decision_rank (effective_decision global profile)
          ≡ max (decision_rank (or_confirm global)) (decision_rank (or_confirm profile)))
unfolding effective_decision
effective_decision-max g p =
    (ground (arith, or_confirm-valid g, or_confirm-valid p), ground arith, ground arith)
