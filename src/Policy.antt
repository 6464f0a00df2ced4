-- ===== src/Policy.antt =====
-- internal/policy/catalog.go: the classifier of MCP tools.
mod Schema
pub mod Decisions
pub mod SchemaMarks
pub mod Reasons
mod Tests
use toolhub.Common.{
  ℕ, Char, String, Bool, true, false, not, ◌&&◌, ◌||◌, Option, none, some, List, [], ◌∷◌, ◌++◌, any,
  ◌==◌, ltb, if◌then◌else◌,
}
use toolhub.Common.Text.{trim_space, to_lower, contains}
use toolhub.Json.{Json, str, Fields, lookup_field, is_true, RawMessage}
use Prim.Native.String.{◌++◌ as concat}
unfoldable pub use Schema.{schema_suggests_mutation, schema_indicates_read_only}

abbrev pub catalog_version : ℕ
catalog_version = 1

abbrev pub decision_allow : String
decision_allow = "allow"

abbrev pub decision_confirm : String
decision_confirm = "confirm"

abbrev pub decision_deny : String
decision_deny = "deny"

pub record ToolDescriptor : Type 0 where
  pub name : String
  pub description : String
  pub input_schema : RawMessage
  pub output_schema : RawMessage
  pub annotations : Fields
  pub explicit_override : String
  pub read_only_hint : Bool
  pub mutating : Bool

pub record Reason : Type 0 where
  pub code : String
  pub detail : String

pub record Classification : Type 0 where
  pub version : ℕ
  pub decision : String
  pub reasons : List Reason

pub record Marker : Type 0 where
  pub patterns : List String
  pub code : String

unfoldable pub valid_decision : String → Bool
valid_decision value =
    value == decision_allow || value == decision_confirm || value == decision_deny

unfoldable pub decision_rank : String → ℕ
decision_rank value =
    if value == decision_deny then 2 else if value == decision_confirm then 1 else 0

-- Reason{Code: code}: the detail is Go's zero value.
abbrev pub reason : String → Reason
reason c = record { code = c; detail = "" }

abbrev pub add_reason : Classification → String → Classification
add_reason r c = record r { reasons = r.reasons ++ reason c ∷ [] }

pub raise : Classification → String → String → Classification
unfolding decision_rank
raise result decision c = record result {
  decision =
      if ltb (decision_rank result.decision) (decision_rank decision)
      then decision
      else result.decision;
  reasons = result.reasons ++ reason c ∷ [];
}

pub annotation_bool : Fields → String → Bool
annotation_bool values key = elim (lookup_field key values) [ none ↦ false | some v ↦ is_true v ]

pub contains_any : String → List String → Bool
contains_any value patterns = any (contains value) patterns

abbrev pub markers : List Marker
markers =
    record {
      patterns = "delete" ∷ "destroy" ∷ "drop" ∷ "purge" ∷ "revoke" ∷ "terminate" ∷ [];
      code = "catalog_destructive";
    }
    ∷ record {
      patterns =
          "credential" ∷ "password" ∷ "secret" ∷ "token" ∷ "api_key" ∷ "apikey" ∷ "rotate_key" ∷ [];
      code = "catalog_credential";
    }
    ∷ record {
      patterns = "publish" ∷ "release" ∷ "deploy" ∷ "send_external" ∷ "post_public" ∷ [];
      code = "catalog_external_publish";
    }
    ∷ record {
      patterns = "payment" ∷ "charge" ∷ "refund" ∷ "invoice" ∷ "transfer" ∷ [];
      code = "catalog_financial";
    }
    ∷ record {
      patterns = "shell" ∷ "exec" ∷ "execute_command" ∷ "run_command" ∷ "sudo" ∷ [];
      code = "catalog_command_execution";
    }
    ∷ []

-- The loop over the markers of the catalog.
pub raise_markers : String → List Marker → Classification → Classification
raise_markers name [] result = result
raise_markers name (m ∷ ms) result =
    raise_markers name ms
      (if contains_any name m.patterns then raise result decision_confirm m.code else result)

unfoldable pub effective_decision : String → String → String
effective_decision global profile =
    let g = if valid_decision global then global else decision_confirm in
    let p = if valid_decision profile then profile else decision_confirm in
    if ltb (decision_rank g) (decision_rank p) then p else g

-- `unicode_lower` is the lower case of a character above ASCII, from Unicode's tables.
module _ (unicode_lower : Char → Char) where
  annotation_string : Fields → String → String
  annotation_string values key = elim (lookup_field key values) [
    | none ↦ ""
    | some v ↦ elim v [ str s ↦ to_lower unicode_lower (trim_space s) | _ ↦ "" ]
  ]

  pub is_denied : Fields → Bool
  unfolding annotation_bool annotation_string
  is_denied annotations =
      annotation_bool annotations "denyHint"
      || annotation_string annotations "decision" == decision_deny

  pub is_read_only : ToolDescriptor → Bool
  unfolding annotation_bool
  is_read_only tool =
      tool.read_only_hint
      || annotation_bool tool.annotations "readOnlyHint"
      || annotation_bool tool.annotations "readOnly"
      || schema_indicates_read_only unicode_lower tool.input_schema
      || schema_indicates_read_only unicode_lower tool.output_schema

  searched_text : ToolDescriptor → String
  searched_text tool =
      to_lower unicode_lower (trim_space (concat tool.name (concat " " tool.description)))

  -- `if validDecision(tool.ExplicitOverride) { … }`, without its return.
  apply_override : ToolDescriptor → Classification → Classification
  apply_override tool result =
      if valid_decision tool.explicit_override
      then record result {
        decision = tool.explicit_override;
        reasons = result.reasons ++ reason "explicit_override" ∷ [];
      }
      else result

  -- The hints of the annotations, and the read-only reason.
  apply_hints : ToolDescriptor → Bool → Classification → Classification
  unfolding annotation_bool
  apply_hints tool read_only r0 =
      let a = tool.annotations in
      let r1 =
        if annotation_bool a "destructiveHint" || annotation_bool a "destructive"
        then raise r0 decision_confirm "annotation_destructive"
        else r0 in
      let r2 =
        if annotation_bool a "mutatingHint" || annotation_bool a "mutating"
        then raise r1 decision_confirm "annotation_mutating"
        else r1 in
      if read_only && not tool.mutating then add_reason r2 "annotation_read_only" else r2

  apply_schema : ToolDescriptor → Classification → Classification
  apply_schema tool result =
      if schema_suggests_mutation unicode_lower tool.input_schema
        || schema_suggests_mutation unicode_lower tool.output_schema
      then raise result decision_confirm "schema_mutating"
      else result

  -- What follows the checks that raise: the default for a tool that nothing marked.
  settle : ToolDescriptor → Bool → Classification → Classification
  settle tool read_only result =
      if result.decision == decision_confirm
      then result
      else if tool.mutating
      then raise result decision_confirm "unclassified_mutating"
      else if not read_only
      then raise result decision_confirm "unclassified"
      else add_reason result "reviewed_read_only"

  pub classify : ToolDescriptor → Classification
  classify tool =
      let start : Classification = record {
        version = catalog_version;
        decision = decision_allow;
        reasons = [];
      } in
      let r = apply_override tool start in
      if valid_decision tool.explicit_override && tool.explicit_override == decision_deny
      then r
      else if is_denied tool.annotations
      then record r {
        decision = decision_deny;
        reasons = r.reasons ++ reason "annotation_deny" ∷ [];
      }
      else let read_only = is_read_only tool in
        settle tool read_only (
          apply_schema tool
            (raise_markers (searched_text tool) markers (apply_hints tool read_only r)))
