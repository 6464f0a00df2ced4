-- ===== src/Policy/Tests.antt =====
-- Witnesses and tests of the classifier, with an identity for the case table above ASCII.
use toolhub.Common.{all, Char, String, true, false, ◌≡◌, refl, ◌↔◌, List, [], ◌∷◌, map}
use toolhub.Common.Text.{to_lower, trim_space, contains}
use toolhub.Json.{Json, bool, obj, arr, cons, nil, end, field, empty, lookup_field}
use toolhub.Policy.{
  ToolDescriptor, Reason, classify, decision_allow, valid_decision, decision_rank,
  effective_decision, is_denied, is_read_only, searched_text, apply_override, apply_hints, raise,
  raise_markers, contains_any, apply_schema, settle,
}
use toolhub.Policy.Schema.{
  value_indicates_read_only, value_suggests_mutation, schema_indicates_read_only,
  schema_suggests_mutation,
}
use toolhub.Policy.Decisions.{
  classify-decision_table, decision_table, effective_decision-max, or_confirm,
}
use toolhub.Policy.Reasons.{validate_reason_code, classify-validate_reason_code}
use toolhub.Policy.SchemaMarks.{
  Marked, marks_read_only, marks_mutation, value_indicates_read_only_iff,
  value_suggests_mutation_iff,
}
use Prim.Native.Nat.{max}
use mathlib.Core.Logic.{◌⊎◌}

abbrev ascii : Char → Char
ascii c = c

abbrev reader : ToolDescriptor
reader = record {
  name = "list_items";
  description = "Lists items";
  input_schema = empty;
  output_schema = empty;
  annotations = field "readOnlyHint" (bool true) end;
  explicit_override = "";
  read_only_hint = false;
  mutating = false;
}

abbrev codes : List Reason → List String
codes rs = map (λ r. r.code) rs

reader_allowed : (classify ascii reader).decision ≡ decision_allow
unfolding classify valid_decision is_denied is_read_only searched_text apply_override apply_hints
    raise_markers contains_any apply_schema settle lookup_field to_lower trim_space contains
    schema_suggests_mutation schema_indicates_read_only
reader_allowed = refl

-- An override to allow does not lift what the name says.
deleter_confirmed :
    codes
      (classify ascii (record reader { name = "Delete_item"; explicit_override = "allow" })).reasons
    ≡ "explicit_override" ∷ "annotation_read_only" ∷ "catalog_destructive" ∷ []
unfolding classify valid_decision is_denied is_read_only searched_text apply_override apply_hints
    raise raise_markers contains_any apply_schema settle lookup_field to_lower trim_space contains
    schema_suggests_mutation schema_indicates_read_only
deleter_confirmed = refl

classify-decision_table_example : (classify ascii reader).decision ≡ decision_table ascii reader
classify-decision_table_example = classify-decision_table ascii reader

effective_decision-max_example :
    (valid_decision (effective_decision "allow" "deny") ≡ true)
    × ((effective_decision "allow" "deny" ≡ or_confirm "allow")
        ⊎ (effective_decision "allow" "deny" ≡ or_confirm "deny"))
    × (decision_rank (effective_decision "allow" "deny")
        ≡ max (decision_rank (or_confirm "allow")) (decision_rank (or_confirm "deny")))
effective_decision-max_example = effective_decision-max "allow" "deny"

abbrev nested : Json
nested = obj (field "properties" (arr (cons (obj (field "ReadOnly" (bool true) end)) nil)) end)

value_indicates_read_only_iff_example :
    (value_indicates_read_only ascii nested ≡ true) ↔ Marked (marks_read_only ascii) nested
value_indicates_read_only_iff_example = value_indicates_read_only_iff ascii nested

value_suggests_mutation_iff_example :
    (value_suggests_mutation ascii nested ≡ true) ↔ Marked (marks_mutation ascii) nested
value_suggests_mutation_iff_example = value_suggests_mutation_iff ascii nested

nested_walks :
    (value_indicates_read_only ascii nested ≡ true) × (value_suggests_mutation ascii nested ≡ false)
unfolding value_indicates_read_only value_suggests_mutation to_lower
nested_walks = (refl, refl)

classify-validate_reason_code_example :
    all (λ (x : Reason). validate_reason_code x.code) (classify ascii reader).reasons ≡ true
classify-validate_reason_code_example = classify-validate_reason_code ascii reader
