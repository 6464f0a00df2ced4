-- ===== src/Bridge/Operation/Safe.antt =====
-- journalSafeTargetResult against hasSensitiveValue of internal/bridge/journal.go.
use toolhub.Common.{
  String, Bool, true, false, Option, none, some, List, [], ◌∷◌, ◌==◌, ◌≡◌, refl, inl, inr,
  Bool-cases, if◌then◌else◌,
}
use toolhub.Common.Text.{trim_space, to_lower}
use toolhub.Json.{Json, bool, num, str, obj, Items, nil, cons, Fields, end, field}
use toolhub.Protocol.Errors.{ApiError, api, bounded_api_error, err_invalid_request}
use toolhub.Protocol.Errors.Laws.{bounded_api_error-details}
use toolhub.Bridge.Operation.{
  RelayCapabilityCounts, RelayMemberStatus, RelayStatus, TargetResult, OperationTarget, Operation,
  journal_safe_target_result, journal_safe_relay_status, safe_error,
}
use toolhub.Bridge.Operation.Encode.{
  Codec, text_field, flag_field, json_field, text_items, slice, is_sensitive_key,
  has_sensitive_value, items_have_sensitive_value, fields_have_sensitive_value, encode_api_error,
  empty_object, encode_capabilities, encode_member_status, encode_member_statuses, members_field,
  encode_relay_status, optional, encode_target_result, encode_operation_target, encode_targets,
  encode_operation,
}

module _ (codec : Codec) where
  -- That a value, a field's value or the fields are free of sensitive values.
  unfoldable pub Clean : Json → Type 0
  Clean j = has_sensitive_value codec j ≡ false

  CleanFields : Fields → Type 0
  CleanFields fs = fields_have_sensitive_value codec fs ≡ false

  CleanItems : Items → Type 0
  CleanItems js = items_have_sensitive_value codec js ≡ false

  unfoldable pub CleanOption : Option Json → Type 0
  unfolding Clean
  CleanOption none = Unit
  CleanOption (some j) = Clean j

  end-Clean : CleanFields end
  unfolding CleanFields
  end-Clean = refl

  leaf-Clean : (s : String) → Clean (str s)
  unfolding Clean
  leaf-Clean s = refl

  num-Clean : (s : String) → Clean (num s)
  unfolding Clean
  num-Clean s = refl

  bool-Clean : (b : Bool) → Clean (bool b)
  unfolding Clean
  bool-Clean b = refl

  field-Clean :
      (k : String) (j : Json) (fs : Fields)
      → is_sensitive_key codec k ≡ false
      → Clean j
      → CleanFields fs
      → CleanFields (field k j fs)
  unfolding Clean CleanFields
  field-Clean k j fs h c d = rw (h, c) d

  obj-Clean : (fs : Fields) → CleanFields fs → Clean (obj fs)
  unfolding Clean CleanFields
  obj-Clean fs d = d

  text_field-Clean :
      (k s : String) (fs : Fields)
      → is_sensitive_key codec k ≡ false
      → CleanFields fs
      → CleanFields (text_field k s fs)
  unfolding text_field
  text_field-Clean k s fs h d = elim (Bool-cases (s == "")) [
    | inl e ↦ rw e d
    | inr e ↦ rw e (field-Clean k (str s) fs h (leaf-Clean s) d)
  ]

  flag_field-Clean :
      (k : String) (b : Bool) (fs : Fields)
      → is_sensitive_key codec k ≡ false
      → CleanFields fs
      → CleanFields (flag_field k b fs)
  unfolding flag_field
  flag_field-Clean k true fs h d = field-Clean k (bool true) fs h (bool-Clean true) d
  flag_field-Clean k false fs h d = d

  none-Clean : CleanOption none
  unfolding CleanOption
  none-Clean = tt

  some-Clean : (j : Json) → Clean j → CleanOption (some j)
  unfolding CleanOption
  some-Clean j c = c

  json_field-Clean :
      (k : String) (j : Option Json) (fs : Fields)
      → is_sensitive_key codec k ≡ false
      → CleanOption j
      → CleanFields fs
      → CleanFields (json_field k j fs)
  unfolding json_field CleanOption
  json_field-Clean k none fs h c d = d
  json_field-Clean k (some j) fs h c d = field-Clean k j fs h c d

  slice-Clean : (js : Items) → CleanItems js → Clean (slice js)
  unfolding slice Clean CleanItems
  slice-Clean nil d = refl
  slice-Clean (cons j js) d = d

  nil-Clean : CleanItems nil
  unfolding CleanItems
  nil-Clean = refl

  cons-Clean : (j : Json) (js : Items) → Clean j → CleanItems js → CleanItems (cons j js)
  unfolding Clean CleanItems
  cons-Clean j js c d = rw c d

  text_items-Clean : (ss : List String) → CleanItems (text_items ss)
  unfolding text_items
  text_items-Clean [] = nil-Clean
  text_items-Clean (s ∷ ss) =
      cons-Clean (str s) (text_items ss) (leaf-Clean s) (text_items-Clean ss)

  -- The keys of the journal's structs are not sensitive.
  abbrev IsPlain : String → Type 0
  IsPlain k = is_sensitive_key codec k ≡ false

  ruleset clean = (
    end-Clean, leaf-Clean, num-Clean, bool-Clean, obj-Clean, field-Clean, text_field-Clean,
    flag_field-Clean, none-Clean, some-Clean, json_field-Clean, slice-Clean, nil-Clean, cons-Clean,
    text_items-Clean,
  )

  encode_capabilities-Clean : (c : RelayCapabilityCounts) → Clean (encode_capabilities codec c)
  unfolding encode_capabilities is_sensitive_key to_lower trim_space
  encode_capabilities-Clean c = search clean depth 24

  encode_member_status-Clean : (m : RelayMemberStatus) → Clean (encode_member_status codec m)
  unfolding encode_member_status is_sensitive_key to_lower trim_space
  encode_member_status-Clean m = search (clean, encode_capabilities-Clean) depth 24

  encode_member_statuses-Clean :
      (ms : List RelayMemberStatus) → CleanItems (encode_member_statuses codec ms)
  unfolding encode_member_statuses
  encode_member_statuses-Clean [] = nil-Clean
  encode_member_statuses-Clean (m ∷ ms) =
      cons-Clean _ _ (encode_member_status-Clean m) (encode_member_statuses-Clean ms)

  members_field-Clean :
      (ms : List RelayMemberStatus) (fs : Fields)
      → CleanFields fs
      → CleanFields (members_field codec ms fs)
  unfolding members_field is_sensitive_key to_lower trim_space CleanFields CleanItems
  members_field-Clean [] fs d = d
  members_field-Clean (m ∷ ms) fs d = rw (encode_member_statuses-Clean (m ∷ ms)) d

  encode_relay_status-Clean : (s : RelayStatus) → Clean (encode_relay_status codec s)
  unfolding encode_relay_status is_sensitive_key to_lower trim_space
  encode_relay_status-Clean s = search (clean, members_field-Clean) depth 32

  encode_api_error-Clean : (e : ApiError) → e.details ≡ none → Clean (encode_api_error codec e)
  unfolding encode_api_error is_sensitive_key to_lower trim_space empty_object
  encode_api_error-Clean e h = rw h (search clean depth 16)

  safe_error-Clean :
      (e : Option ApiError) → CleanOption (optional codec (encode_api_error codec) (safe_error e))
  unfolding optional safe_error
  safe_error-Clean none = none-Clean
  safe_error-Clean (some e) = some-Clean _ (
      encode_api_error-Clean (bounded_api_error (api e) err_invalid_request)
        (bounded_api_error-details (api e) err_invalid_request))

  relay-Clean :
      (s : Option RelayStatus) → CleanOption (optional codec (encode_relay_status codec) s)
  unfolding optional
  relay-Clean none = none-Clean
  relay-Clean (some s) = some-Clean _ (encode_relay_status-Clean s)

  target_result-Clean :
      (t : TargetResult)
      → t.manifest ≡ none
      → t.details ≡ none
      → CleanOption (optional codec (encode_relay_status codec) t.relay)
      → CleanOption (optional codec (encode_api_error codec) t.error)
      → Clean (encode_target_result codec t)
  unfolding encode_target_result is_sensitive_key to_lower trim_space empty_object
  target_result-Clean t m d c e = rw (m, d) (search clean depth 32)

  -- The result that the journal keeps has no sensitive value, whatever the adapter returned.
  pub journal_safe_target_result-Clean :
      (r : TargetResult) → Clean (encode_target_result codec (journal_safe_target_result r))
  unfolding journal_safe_target_result
  journal_safe_target_result-Clean r =
      target_result-Clean (journal_safe_target_result r) refl refl
        (relay-Clean (journal_safe_relay_status r.relay)) (safe_error-Clean r.error)

  pub target_error-Clean :
      (b : Bool) (r : TargetResult)
      → CleanOption (
          optional codec
            (encode_api_error codec)
            (if b then none else (journal_safe_target_result r).error))
  unfolding journal_safe_target_result optional
  target_error-Clean true r = none-Clean
  target_error-Clean false r = safe_error-Clean r.error

  -- An operation with one target, whose result and error are clean.
  pub operation-Clean :
      (o : Operation) (t : OperationTarget)
      → o.targets ≡ t ∷ []
      → CleanOption (optional codec (encode_target_result codec) t.result)
      → CleanOption (optional codec (encode_api_error codec) t.error)
      → Clean (encode_operation codec o)
  unfolding encode_operation encode_targets encode_operation_target is_sensitive_key to_lower
      trim_space slice
  operation-Clean o t e c d =
      let item : Clean (encode_operation_target codec t) = search clean depth 32 in
      rw e (search clean depth 32)

  pub result-Clean :
      (r : TargetResult)
      → CleanOption
          (optional codec (encode_target_result codec) (some (journal_safe_target_result r)))
  unfolding optional
  result-Clean r = some-Clean _ (journal_safe_target_result-Clean r)
