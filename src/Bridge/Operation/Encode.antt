-- ===== src/Bridge/Operation/Encode.antt =====
-- The JSON of an operation, by the tags of the structs in internal/bridgeprotocol/types.go, and the
-- test for sensitive values of internal/bridge/journal.go.
use toolhub.Common.{
  ℕ, Char, String, Bool, true, false, ◌||◌, Option, none, some, List, [], ◌∷◌, ◌==◌, if◌then◌else◌,
}
use toolhub.Common.Text.{trim_space, to_lower}
use toolhub.Common.Int.{ℤ}
use toolhub.Json.{Json, null, bool, num, str, arr, obj, Items, nil, cons, Fields, end, field}
use toolhub.Protocol.Errors.{ApiError}
use toolhub.Protocol.Manifest.{DesiredManifest}
use toolhub.Bridge.Operation.{
  RelayCapabilityCounts, RelayMemberStatus, RelayStatus, TargetResult, OperationTarget, Operation,
}

-- What encoding/json and unicode supply.
pub record Codec : Type 0 where
  pub unicode_lower : Char → Char
  pub time_text : ℕ → String
  pub number_text : ℤ → String
  pub manifest_json : DesiredManifest → Json
  -- The value that json.Unmarshal makes of a text, where it makes one.
  pub unmarshal : String → Option Json
  -- The operationId that json.Unmarshal finds in a text, empty where there is none.
  pub unmarshal_identity : String → Option String

-- Fields with the tag omitempty.
unfoldable pub text_field : String → String → Fields → Fields
text_field k s fs = if s == "" then fs else field k (str s) fs

unfoldable pub flag_field : String → Bool → Fields → Fields
flag_field k b fs = if b then field k (bool true) fs else fs

unfoldable pub json_field : String → Option Json → Fields → Fields
json_field k none fs = fs
json_field k (some j) fs = field k j fs

unfoldable pub text_items : List String → Items
text_items [] = nil
text_items (s ∷ ss) = cons (str s) (text_items ss)

-- A slice; an empty one counts as nil.
unfoldable pub slice : Items → Json
slice nil = null
slice js = arr js

module _ (codec : Codec) where
  -- A key is compared in lower case and without the white space around it.
  unfoldable pub is_sensitive_key : String → Bool
  is_sensitive_key k =
      let lower = to_lower codec.unicode_lower (trim_space k) in
      lower == "secretvalues"
      || lower == "archive"
      || lower == "content"
      || lower == "manifest"
      || lower == "rawoutput"
      || lower == "plaintext"

  abbrev mutual
    -- hasSensitiveValue
    pub has_sensitive_value : Json → Bool
    has_sensitive_value (arr xs) = items_have_sensitive_value xs
    has_sensitive_value (obj fs) = fields_have_sensitive_value fs
    has_sensitive_value _ = false

    pub items_have_sensitive_value : Items → Bool
    items_have_sensitive_value nil = false
    items_have_sensitive_value (cons j js) = has_sensitive_value j || items_have_sensitive_value js

    pub fields_have_sensitive_value : Fields → Bool
    fields_have_sensitive_value end = false
    fields_have_sensitive_value (field k j fs) =
        is_sensitive_key k || has_sensitive_value j || fields_have_sensitive_value fs

  -- containsSensitiveJSON
  unfoldable pub contains_sensitive_json : String → Bool
  contains_sensitive_json body = elim (codec.unmarshal body) [
    | none ↦ true
    | some j ↦ has_sensitive_value j
  ]

  unfoldable pub empty_object : Option Fields → Option Json
  empty_object none = none
  empty_object (some end) = none
  empty_object (some fs) = some (obj fs)

  unfoldable pub encode_api_error : ApiError → Json
  unfolding empty_object
  encode_api_error e = obj (
      field "code" (str e.code) (
        field "message" (str e.message)
          (flag_field "retryable" e.retryable (json_field "details" (empty_object e.details) end))))

  unfoldable pub encode_capabilities : RelayCapabilityCounts → Json
  encode_capabilities c = obj (
      field "tools" (num (codec.number_text c.tools)) (
        field "resources" (num (codec.number_text c.resources)) (
          field "resourceTemplates" (num (codec.number_text c.resource_templates))
            (field "prompts" (num (codec.number_text c.prompts)) end))))

  unfoldable pub encode_member_status : RelayMemberStatus → Json
  unfolding encode_capabilities text_field slice text_items
  encode_member_status m = obj (
      field "memberId" (str m.member_id) (
        field "name" (str m.name) (
          field "status" (str m.status) (
            field "capabilityKinds" (slice (text_items m.capability_kinds)) (
              field "capabilities" (encode_capabilities m.capabilities) (
                field "checkedAt" (str (codec.time_text m.checked_at)) (
                  text_field "errorCode" m.error_code
                    (text_field "errorReason" m.error_reason end))))))))

  unfoldable pub encode_member_statuses : List RelayMemberStatus → Items
  unfolding encode_member_status
  encode_member_statuses [] = nil
  encode_member_statuses (m ∷ ms) = cons (encode_member_status m) (encode_member_statuses ms)

  unfoldable pub members_field : List RelayMemberStatus → Fields → Fields
  unfolding encode_member_statuses
  members_field [] fs = fs
  members_field ms fs = field "memberStatuses" (arr (encode_member_statuses ms)) fs

  unfoldable pub encode_relay_status : RelayStatus → Json
  unfolding members_field text_field
  encode_relay_status s = obj (
      field "state" (str s.state) (
        field "healthy" (bool s.healthy) (
          field "intentionalPaused" (bool s.intentional_paused) (
            field "endpoint" (str s.endpoint) (
              field "fixedPort" (num (codec.number_text s.fixed_port)) (
                field "systemdEnabled" (bool s.systemd_enabled) (
                  text_field "version" s.version (
                    text_field "contract" s.contract (
                      members_field s.member_statuses (
                        text_field "errorCode" s.error_code
                          (text_field "errorReason" s.error_reason end)))))))))))

  -- An omitted pointer, or what it points at.
  unfoldable pub optional : {A : Type 0} → (A → Json) → Option A → Option Json
  optional f none = none
  optional f (some a) = some (f a)

  unfoldable pub encode_target_result : TargetResult → Json
  unfolding encode_relay_status encode_api_error optional empty_object text_field flag_field
      json_field
  encode_target_result r = obj (
      field "status" (str r.status) (
        field "health" (str r.health) (
          text_field "targetRevision" r.target_revision (
            text_field "backupId" r.backup_id (
              flag_field "repaired" r.repaired (
                json_field "manifest" (optional codec.manifest_json r.manifest) (
                  json_field "relay" (optional encode_relay_status r.relay) (
                    json_field "details" (empty_object r.details)
                      (json_field "error" (optional encode_api_error r.error) end)))))))))

  unfoldable pub encode_operation_target : OperationTarget → Json
  unfolding encode_target_result encode_api_error optional text_field json_field
  encode_operation_target t = obj (
      field "targetId" (str t.target_id) (
        field "status" (str t.status) (
          text_field "saltJid" t.salt_jid (
            json_field "result" (optional encode_target_result t.result)
              (json_field "error" (optional encode_api_error t.error) end)))))

  unfoldable pub encode_targets : List OperationTarget → Items
  unfolding encode_operation_target
  encode_targets [] = nil
  encode_targets (t ∷ ts) = cons (encode_operation_target t) (encode_targets ts)

  -- The value that json.Marshal writes for an operation.
  unfoldable pub encode_operation : Operation → Json
  unfolding encode_targets slice
  encode_operation o = obj (
      field "id" (str o.id) (
        field "kind" (str o.kind) (
          field "status" (str o.status) (
            field "targets" (slice (encode_targets o.targets)) (
              field "createdAt" (str (codec.time_text o.created_at))
                (field "updatedAt" (str (codec.time_text o.updated_at)) end))))))
