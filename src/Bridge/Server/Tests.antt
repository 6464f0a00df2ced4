-- ===== src/Bridge/Server/Tests.antt =====
-- Witnesses and tests of mutations and operations, with a list of entries for bbolt, texts for the
-- JSON, and a count of the runs of the handler for the world.
use toolhub.Common.{
  ℕ, ◌+◌, String, true, none, some, [], ◌∷◌, ok, ◌==◌, if◌then◌else◌, ◌≡◌, refl, arith,
}
use toolhub.Common.Text.{trim_space, to_lower}
use toolhub.Json.{null, str, end, field}
use toolhub.Bridge.Bolt.Assoc.{assoc, empty_bucket, without, put_entry, get_entry}
use toolhub.Bridge.Auth.{Request}
use toolhub.Bridge.Operation.{TargetResult, operation_succeeded, journal_safe_target_result}
use toolhub.Bridge.Operation.Encode.{
  Codec, contains_sensitive_json, has_sensitive_value, encode_target_result, optional, empty_object,
  text_field, flag_field, json_field, is_sensitive_key,
}
use toolhub.Bridge.Operation.Safe.{Clean, journal_safe_target_result-Clean}
use toolhub.Bridge.Journal.{reused, journal_error, idempotency_begin, idempotency_put, operation}
use toolhub.Bridge.Server.{
  Wire, State, failed, raw, Handler, mutation, resume, run_handler, answer, encoded, persisted,
  to_api_error, request_hash_of, operation_id_from_body,
}
use toolhub.Bridge.Server.Keys.{key_of}
use toolhub.Bridge.Server.Idempotency.{mutate_all, mutation-once}
use toolhub.Bridge.Server.Answers.{mutation-answer}
use toolhub.Bridge.Server.Operations.{
  persist_running_operation, persist_safe_operation, persist_safe_operation-operation,
}

abbrev texts : Codec
texts = record {
  unicode_lower = λ c. c;
  time_text = λ n. "2026-01-01T00:00:00Z";
  number_text = λ z. "0";
  manifest_json = λ m. null;
  unmarshal = λ s. some (str s);
  unmarshal_identity = λ s. some s;
}

abbrev wire : Wire String
wire = record {
  codec = texts;
  marshal = λ v. some v;
  marshal_error = λ e. some e.code;
  marshal_result = λ r. some r.status;
  sha256_hex = λ s. s;
}

-- A handler that counts its runs.
abbrev count : Handler assoc ℕ String
unfolding Handler
count = λ p body. ((p.0, p.1 + 1), ok (200, body))

abbrev fresh : State assoc ℕ
fresh = record { idempotency = empty_bucket _; operations = empty_bucket _; world = 0 }

abbrev request : String → Request
request body = record {
  method = "POST";
  request_uri = "/v1/targets/apply";
  timestamp = "1000";
  nonce = "0123456789abcdef";
  signature = "abcd";
  idempotency_key = " key-00001 ";
  body = body;
}

first_answer : (mutation assoc wire count 1 (request "a") fresh).1 ≡ raw 200 "a"
unfolding mutation resume run_handler answer encoded persisted request_hash_of
    operation_id_from_body Handler idempotency_begin idempotency_put contains_sensitive_json
    trim_space empty_bucket get_entry put_entry without
first_answer = refl

mutation-once_example :
    ((mutation assoc wire count 3 (request "b") (
        mutate_all assoc wire
          ((count, 2, request "a") ∷ [])
          (mutation assoc wire count 1 (request "a") fresh).0)).0.operations
      ≡ (mutate_all assoc wire
          ((count, 2, request "a") ∷ [])
          (mutation assoc wire count 1 (request "a") fresh).0).operations)
    × ((mutation assoc wire count 3 (request "b") (
          mutate_all assoc wire
            ((count, 2, request "a") ∷ [])
            (mutation assoc wire count 1 (request "a") fresh).0)).0.world
        ≡ (mutate_all assoc wire
            ((count, 2, request "a") ∷ [])
            (mutation assoc wire count 1 (request "a") fresh).0).world)
unfolding key_of
mutation-once_example =
    mutation-once assoc wire count count 1 3 (request "a") (request "b")
      ((count, 2, request "a") ∷ []) fresh refl

mutation-answer_example :
    mutation assoc wire count 3 (request "b") (
      mutate_all assoc wire
        ((count, 2, request "a") ∷ [])
        (mutation assoc wire count 1 (request "a") fresh).0)
    ≡ (
      mutate_all assoc wire
          ((count, 2, request "a") ∷ [])
          (mutation assoc wire count 1 (request "a") fresh).0,
      if request_hash_of wire (request "a") == request_hash_of wire (request "b")
          then raw 200 "a"
          else failed 409 (to_api_error (journal_error reused)),
    )
unfolding key_of
mutation-answer_example =
    mutation-answer assoc wire count count 1 3 200 "a" (request "a") (request "b")
      ((count, 2, request "a") ∷ []) fresh (λ e. ground (arith, e)) refl first_answer

abbrev leaky : TargetResult
leaky = record {
  status = operation_succeeded;
  health = "healthy";
  target_revision = "r2";
  backup_id = "";
  repaired = true;
  manifest = none;
  relay = none;
  details = some (field "secretValues" (str "token") end);
  error = none;
}

leaky_is_sensitive : has_sensitive_value texts (encode_target_result texts leaky) ≡ true
unfolding encode_target_result optional empty_object text_field flag_field json_field
    is_sensitive_key to_lower trim_space
leaky_is_sensitive = refl

journal_safe_target_result-Clean_example :
    Clean texts (encode_target_result texts (journal_safe_target_result leaky))
journal_safe_target_result-Clean_example = journal_safe_target_result-Clean texts leaky

persist_safe_operation-operation_example :
    operation assoc "op-1" (
      persist_safe_operation assoc texts "op-1" "apply" "t1" 9 leaky
        (persist_running_operation assoc texts "op-1" "apply" "t1" 5 (empty_bucket _)))
    ≡ ok (record {
      id = "op-1";
      kind = "apply";
      status = "succeeded";
      targets =
          record {
            target_id = "t1";
            status = "succeeded";
            salt_jid = "";
            result = some (journal_safe_target_result leaky);
            error = none;
          }
          ∷ [];
      created_at = 5;
      updated_at = 9;
    })
persist_safe_operation-operation_example =
    persist_safe_operation-operation assoc texts "op-1" "apply" "t1" 5 9 leaky (empty_bucket _)
      (omega arith) (omega arith)
