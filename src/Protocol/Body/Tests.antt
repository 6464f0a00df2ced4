-- ===== src/Protocol/Body/Tests.antt =====
-- A witness and tests of governance bodies, with one fixed value for the decoder.
use toolhub.Common.{◌≤◌, len, true, some, ok, err, ◌≡◌, refl}
use toolhub.Json.{Json, bool, str, arr, obj, nil, cons, end, field, lookup_field}
use toolhub.Protocol.Body.{
  validate_governance_body, validate_governance_value, validate_fields, validate_items, within,
  check_key, is_forbidden, normalized_field_name, normalized_char, is_schema_field, child_path,
  has_field, is_routing_governance_value, depth_limit, forbidden_field, too_deep_or_many,
}
use toolhub.Protocol.Body.Limits.{count, height, validate_governance_body-limits}

abbrev observation : Json
observation = obj (field "toolId" (str "t1") (field "tags" (arr (cons (bool true) nil)) end))

abbrev leak : Json
leak = obj (field "Session-ID" (str "s1") end)

abbrev deep : Json
deep = arr (
    cons
      (arr
        (cons (arr (cons (arr (cons (arr (cons (arr (cons (bool true) nil)) nil)) nil)) nil)) nil))
      nil)

observation_accepted : validate_governance_body (λ s. some observation) "{}" ≡ ok observation
unfolding validate_governance_body validate_governance_value validate_fields validate_items within
    check_key is_forbidden normalized_field_name normalized_char is_schema_field child_path
    is_routing_governance_value has_field lookup_field
observation_accepted = refl

leak_refused : validate_governance_body (λ s. some leak) "{}" ≡ err forbidden_field
unfolding validate_governance_body validate_governance_value validate_fields validate_items within
    check_key is_forbidden normalized_field_name normalized_char is_schema_field child_path
    is_routing_governance_value has_field lookup_field
leak_refused = refl

deep_refused : validate_governance_body (λ s. some deep) "[]" ≡ err too_deep_or_many
unfolding validate_governance_body validate_governance_value validate_fields validate_items within
    check_key is_forbidden normalized_field_name normalized_char is_schema_field child_path
    is_routing_governance_value has_field lookup_field
deep_refused = refl

validate_governance_body-limits_example :
    (some observation ≡ some observation)
    × (len "{}" ≤ 1048576)
    × (count observation ≤ 10000)
    × (height observation ≤ depth_limit observation)
validate_governance_body-limits_example =
    validate_governance_body-limits (λ s. some observation) "{}" observation observation_accepted
