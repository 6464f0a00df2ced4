-- ===== src/Bridge/Journal.antt =====
-- internal/bridge/journal.go: the idempotency records and the operations of the journal. A
-- transaction of bbolt is a function from the buckets to the buckets, and an error leaves them as
-- they were. A time is its nanoseconds since 1970.
pub mod Keys
use toolhub.Common.{
  ℕ, String, len, Bool, true, false, Option, none, some, List, [], ◌∷◌, Result, ok, err, ltb, ◌==◌,
  not, if◌then◌else◌,
}
use toolhub.Protocol.Errors.{ApiError, Error, api, plain, err_idempotency_conflict}
use toolhub.Bridge.Bolt.{Bolt, Cell, json, corrupt}
use toolhub.Bridge.Operation.{Operation}
use toolhub.Bridge.Operation.Encode.{
  Codec, contains_sensitive_json, has_sensitive_value, encode_operation,
}

-- A pending request has the status 0 and the response `null`.
pub record IdempotencyRecord : Type 0 where
  pub request_hash : String
  pub operation_id : String
  pub status : ℕ
  pub response : String
  pub created_at : ℕ

pub data JournalError : Type 0 where
  reused malformed too_long sensitive not_stored not_found : JournalError

unfoldable pub journal_error : JournalError → Error
journal_error reused = api (record {
  code = err_idempotency_conflict;
  message = "Idempotency key was reused with a different request";
  retryable = false;
  details = none;
})
journal_error malformed = plain "malformed record"
journal_error too_long = plain "idempotency response exceeds safe journal limit"
journal_error sensitive = plain "refusing to persist sensitive response in Bridge journal"
journal_error not_stored = plain "not stored"
journal_error not_found = plain "operation not found"

module _ (bolt : Bolt) where
  open bolt use {Bucket, get, put, accepts}

  unfoldable pub idempotency_get :
      String → String → Bucket (Cell IdempotencyRecord) → Result JournalError (Option (ℕ × String))
  idempotency_get key hash b = elim (get key b) [
    | none ↦ ok none
    | some corrupt ↦ err malformed
    | some (json r) ↦
        if r.request_hash == hash then ok (some (r.status, r.response)) else err reused
  ]

  -- IdempotencyBegin: the record, and whether it was there before.
  unfoldable pub idempotency_begin :
      String
      → String
      → String
      → ℕ
      → Bucket (Cell IdempotencyRecord)
      → Bucket (Cell IdempotencyRecord) × Result JournalError (IdempotencyRecord × Bool)
  idempotency_begin key hash operation now b = elim (get key b) [
    | some corrupt ↦ (b, err malformed)
    | some (json r) ↦ (b, if r.request_hash == hash then ok (r, true) else err reused)
    | none ↦
        (let r : IdempotencyRecord = record {
          request_hash = hash;
          operation_id = operation;
          status = 0;
          response = "null";
          created_at = now;
        } in
          if accepts key then (put key (json r) b, ok (r, false)) else (b, err not_stored))
  ]

  unfoldable pub idempotency_put :
      Codec
      → String
      → String
      → ℕ
      → String
      → ℕ
      → Bucket (Cell IdempotencyRecord)
      → Bucket (Cell IdempotencyRecord) × Option JournalError
  idempotency_put codec key hash status response now b =
      if ltb 2097152 (len response)
      then (b, some too_long)
      else if contains_sensitive_json codec response
      then (b, some sensitive)
      else if accepts key
      then (
        put key
            (json (record {
              request_hash = hash;
              operation_id = "";
              status = status;
              response = response;
              created_at = now;
            }))
            b,
        none,
      )
      else (b, some not_stored)

  -- PutOperation: the value that json.Marshal writes is the one that the test for sensitive values
  -- reads back.
  unfoldable pub put_operation :
      Codec → Operation → Bucket (Cell Operation) → Bucket (Cell Operation) × Option JournalError
  put_operation codec o b =
      if has_sensitive_value codec (encode_operation codec o)
      then (b, some sensitive)
      else if accepts o.id
      then (put o.id (json o) b, none)
      else (b, some not_stored)

  -- Journal.Operation
  unfoldable pub operation : String → Bucket (Cell Operation) → Result JournalError Operation
  operation id b = elim (get id b) [
    | none ↦ err not_found
    | some corrupt ↦ err malformed
    | some (json o) ↦ ok o
  ]
