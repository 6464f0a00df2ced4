-- ===== src/Protocol/Body.antt =====
-- internal/bridgeprotocol/governance.go: the limits of a governance body, ValidateGovernanceBody.
pub mod Limits
mod Tests
use Prim.Native.String.{◌++◌ as concat, char_at}
use toolhub.Common.{
  ℕ, ◌+◌, ◌-◌, Char, code, String, len, Bool, true, false, not, ◌&&◌, ◌||◌, Option, none, some,
  is_none, Result, ok, err, ◌>>=◌, ltb, leb, ◌==◌, if◌then◌else◌,
}
use toolhub.Json.{Json, str, arr, obj, Items, nil, cons, Fields, end, field, lookup_field}

abbrev pub max_body_bytes : ℕ
max_body_bytes = 1048576

abbrev pub max_depth : ℕ
max_depth = 5

abbrev pub max_routing_depth : ℕ
max_routing_depth = 64

abbrev pub max_items : ℕ
max_items = 10000

abbrev max_string_bytes : ℕ
max_string_bytes = 8192

pub data BodyError : Type 0 where
  bad_size undecodable too_deep_or_many forbidden_field long_key long_string : BodyError

-- normalizedGovernanceFieldName: lower case letters and digits, and nothing else.
normalized_char : Char → String → String
normalized_char c rest =
    let n = code c in
    if leb b'A' n && leb n b'Z'
    then String.◌∷◌ (char_at "abcdefghijklmnopqrstuvwxyz" (n - b'A')) rest
    else if (leb b'a' n && leb n b'z') || (leb b'0' n && leb n b'9')
    then String.◌∷◌ c rest
    else rest

normalized_field_name : String → String
unfolding normalized_char
normalized_field_name String.[] = String.[]
normalized_field_name (String.◌∷◌ c s) = normalized_char c (normalized_field_name s)

is_schema_field : String → String → Bool
is_schema_field path key =
    (key == "inputschema" || key == "outputschema")
    && (path == "servers[].tools[]" || path == "routingbundle.servers[].tools[]")

child_path : String → String → String
child_path path key = if path == "" then key else concat path (concat "." key)

is_forbidden : String → Bool
is_forbidden name =
    name == "secretvalue"
    || name == "secretvalues"
    || name == "arguments"
    || name == "result"
    || name == "results"
    || name == "prompt"
    || name == "prompts"
    || name == "rawerror"
    || name == "sessionid"
    || name == "ciphertext"

-- The tests on a key, before its value is looked at.
check_key : Bool → String → Option BodyError
unfolding is_forbidden normalized_field_name
check_key schema_data key =
    if is_forbidden (normalized_field_name key) && not schema_data
    then some forbidden_field
    else if ltb 256 (len key)
    then some long_key
    else none

-- The first test of a value: its depth, and the number of values before it.
within : ℕ → ℕ → ℕ → Result BodyError ℕ → Result BodyError ℕ
within limit depth items rest =
    if ltb limit depth || leb max_items items then err too_deep_or_many else rest

-- The walk returns the number of values that it has seen so far; the arguments are the depth, that
-- number, whether the value is schema data, and the path.
mutual
  pub validate_governance_value : ℕ → Json → ℕ → ℕ → Bool → String → Result BodyError ℕ
  validate_governance_value limit (obj fs) depth items schema_data path =
      within limit depth items (validate_fields limit fs depth (items + 1) schema_data path)
  validate_governance_value limit (arr vs) depth items schema_data path =
      within limit depth items (validate_items limit vs depth (items + 1) schema_data path)
  validate_governance_value limit (str s) depth items schema_data path =
      within limit depth items
        (if ltb max_string_bytes (len s) then err long_string else ok (items + 1))
  validate_governance_value limit _ depth items schema_data path =
      within limit depth items (ok (items + 1))

  pub validate_items : ℕ → Items → ℕ → ℕ → Bool → String → Result BodyError ℕ
  validate_items limit nil depth items schema_data path = ok items
  validate_items limit (cons v vs) depth items schema_data path =
      validate_governance_value limit v (depth + 1) items schema_data (concat path "[]") >>= λ seen.
      validate_items limit vs depth seen schema_data path

  pub validate_fields : ℕ → Fields → ℕ → ℕ → Bool → String → Result BodyError ℕ
  validate_fields limit end depth items schema_data path = ok items
  validate_fields limit (field k v fs) depth items schema_data path =
      elim (check_key schema_data k) [
        | some e ↦ err e
        | none ↦
            validate_governance_value limit v (depth + 1) items
              (schema_data || is_schema_field path (normalized_field_name k))
              (child_path path (normalized_field_name k))
            >>= λ seen. validate_fields limit fs depth seen schema_data path
      ]

has_field : String → Fields → Bool
has_field k fs = not (is_none (lookup_field k fs))

-- isRoutingGovernanceValue
unfoldable pub is_routing_governance_value : Json → Bool
unfolding has_field
is_routing_governance_value (obj fs) =
    has_field "routingBundle" fs
    || (has_field "servers" fs
        && (has_field "schemaVersion" fs || has_field "relayConfigurationRevisionId" fs))
is_routing_governance_value _ = false

abbrev pub depth_limit : Json → ℕ
depth_limit v = if is_routing_governance_value v then max_routing_depth else max_depth

-- ValidateGovernanceBody: `decode` makes the value of a body with one JSON text and nothing else.
pub validate_governance_body : (String → Option Json) → String → Result BodyError Json
unfolding is_routing_governance_value
validate_governance_body decode body =
    if body == "" || ltb max_body_bytes (len body) then err bad_size else elim (decode body) [
      | none ↦ err undecodable
      | some v ↦ validate_governance_value (depth_limit v) v 0 0 false "" >>= λ _. ok v
    ]
