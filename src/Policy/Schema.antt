-- ===== src/Policy/Schema.antt =====
-- internal/policy/catalog.go: the walks over a tool's JSON schemas.
use toolhub.Common.{Char, String, Bool, false, ◌&&◌, ◌||◌, ◌==◌, if◌then◌else◌}
use toolhub.Common.Text.{to_lower}
use toolhub.Json.{
  Json, arr, obj, Items, nil, cons, Fields, end, field, is_true, RawMessage, empty, malformed,
  decoded,
}

-- The keys that the two walks look for, on a key in lower case.
abbrev pub is_read_only_key : String → Bool
is_read_only_key lower =
    lower == "readonly" || lower == "read_only" || lower == "x-toolhub-read-only"

abbrev pub is_skipped_key : String → Bool
is_skipped_key lower = lower == "readOnly" || lower == "readonly"

abbrev pub is_mutation_key : String → Bool
is_mutation_key lower =
    lower == "writeOnly" || lower == "writeonly" || lower == "mutating" || lower == "destructive"

unfoldable mutual
  pub value_indicates_read_only : (Char → Char) → Json → Bool
  value_indicates_read_only u (obj fs) = fields_indicate_read_only u fs
  value_indicates_read_only u (arr xs) = items_indicate_read_only u xs
  value_indicates_read_only u _ = false

  pub items_indicate_read_only : (Char → Char) → Items → Bool
  items_indicate_read_only u nil = false
  items_indicate_read_only u (cons x xs) =
      value_indicates_read_only u x || items_indicate_read_only u xs

  pub fields_indicate_read_only : (Char → Char) → Fields → Bool
  fields_indicate_read_only u end = false
  fields_indicate_read_only u (field key child fs) =
      (is_read_only_key (to_lower u key) && is_true child)
      || (value_indicates_read_only u child || fields_indicate_read_only u fs)

unfoldable mutual
  pub value_suggests_mutation : (Char → Char) → Json → Bool
  value_suggests_mutation u (obj fs) = fields_suggest_mutation u fs
  value_suggests_mutation u (arr xs) = items_suggest_mutation u xs
  value_suggests_mutation u _ = false

  pub items_suggest_mutation : (Char → Char) → Items → Bool
  items_suggest_mutation u nil = false
  items_suggest_mutation u (cons x xs) = value_suggests_mutation u x || items_suggest_mutation u xs

  -- A field `readonly: true` is skipped by `continue`.
  pub fields_suggest_mutation : (Char → Char) → Fields → Bool
  fields_suggest_mutation u end = false
  fields_suggest_mutation u (field key child fs) =
      let rest = fields_suggest_mutation u fs in
      let below = value_suggests_mutation u child in
      if is_skipped_key (to_lower u key) && is_true child
      then rest
      else (is_mutation_key (to_lower u key) && is_true child) || (below || rest)

unfoldable pub schema_indicates_read_only : (Char → Char) → RawMessage → Bool
unfolding value_indicates_read_only
schema_indicates_read_only u empty = false
schema_indicates_read_only u malformed = false
schema_indicates_read_only u (decoded value) = value_indicates_read_only u value

unfoldable pub schema_suggests_mutation : (Char → Char) → RawMessage → Bool
unfolding value_suggests_mutation
schema_suggests_mutation u empty = false
schema_suggests_mutation u malformed = false
schema_suggests_mutation u (decoded value) = value_suggests_mutation u value
