-- ===== src/Bridge/Server.antt =====
-- internal/bridge/server.go: a mutation behind its idempotency key. The handler is a parameter: a
-- function of the operations' bucket and of the world that the adapter acts on. One request is
-- served after the other.
pub mod Keys
pub mod Idempotency
pub mod Answers
mod Tests
pub mod Operations
use Prim.Native.String.{◌++◌ as concat}
use toolhub.Common.{
  ℕ, String, len, Bool, true, false, not, ◌||◌, Option, none, some, is_none, List, [], ◌∷◌, Result,
  ok, err, ltb, eqb, ◌==◌, if◌then◌else◌,
}
use toolhub.Common.Text.{trim_space}
use toolhub.Protocol.Errors.{
  ApiError, Error, bounded_api_error, err_invalid_request, err_revision_conflict, err_replay,
  err_idempotency_conflict, err_relay_port_conflict, err_target_unavailable, err_relay_unhealthy,
  err_unsupported_operation,
}
use toolhub.Bridge.Bolt.{Bolt, Cell}
use toolhub.Bridge.Auth.{Request}
use toolhub.Bridge.Operation.{
  TargetResult, OperationTarget, Operation, is_terminal_operation_status, operation_failed,
  operation_succeeded, operation_running, journal_safe_target_result,
}
use toolhub.Bridge.Operation.Encode.{Codec, contains_sensitive_json}
use toolhub.Bridge.Journal.{
  IdempotencyRecord, JournalError, journal_error, idempotency_begin, idempotency_put, put_operation,
  operation,
}

-- asAPIError
unfoldable pub to_api_error : Error → ApiError
to_api_error e = bounded_api_error e err_invalid_request

-- statusForBridgeError
unfoldable pub status_for_bridge_error : ApiError → ℕ
status_for_bridge_error e =
    if e.code == err_revision_conflict
      || e.code == err_replay
      || e.code == err_idempotency_conflict
      || e.code == err_relay_port_conflict
    then 409
    else if e.code == err_target_unavailable || e.code == err_relay_unhealthy
    then 503
    else if e.code == err_unsupported_operation
    then 501
    else 400

-- What is written to the client: writeBridgeError, or the bytes of writeRawJSON.
pub data Reply : Type 0 where
  failed : ℕ → ApiError → Reply
  raw : ℕ → String → Reply

abbrev pub invalid : String → ApiError
invalid m = record { code = err_invalid_request; message = m; retryable = false; details = none }

-- What json.Marshal and SHA-256 make of the values of the server.
pub record Wire (V : Type 0) : Type 0 where
  pub codec : Codec
  pub marshal : V → Option String
  pub marshal_error : ApiError → Option String
  pub marshal_result : TargetResult → Option String
  -- The digest of the method, the path and the body in hexadecimal.
  pub sha256_hex : String → String

pub record State (bolt : Bolt) (W : Type 0) : Type 0 where
  pub idempotency : bolt.Bucket (Cell IdempotencyRecord)
  pub operations : bolt.Bucket (Cell Operation)
  pub world : W

with_error : OperationTarget → Option TargetResult
with_error t = elim t.result [
  | none ↦ none
  | some r ↦ some (if is_none r.error then record r { error = t.error } else r)
]

single_result : List OperationTarget → Option TargetResult
unfolding with_error
single_result (t ∷ []) = with_error t
single_result _ = none

-- operationIDFromBody
pub operation_id_from_body : Codec → String → String
operation_id_from_body codec body = elim (codec.unmarshal_identity body) [
  | none ↦ ""
  | some id ↦ id
]

-- The operation's result where it is terminal, has one target, and that target has a result with
-- the target's error filled in.
terminal_result : Result JournalError Operation → Option TargetResult
unfolding single_result
terminal_result (err e) = none
terminal_result (ok o) =
    if not (is_terminal_operation_status o.status) then none else single_result o.targets

-- The status is the first part of what a handler returns.
pub Handler : Bolt → Type 0 → Type 0 → Type 0
Handler bolt W V =
    bolt.Bucket (Cell Operation) × W
    → String
    → (bolt.Bucket (Cell Operation) × W) × Result Error (ℕ × V)

-- The status of a failed result with an error, and its bytes.
failed_response : {V : Type 0} → Wire V → TargetResult → Option ApiError → ℕ × Option String
unfolding status_for_bridge_error
failed_response wire r none = (200, wire.marshal_result r)
failed_response wire r (some e) = (status_for_bridge_error e, wire.marshal_error e)

result_response : {V : Type 0} → Wire V → TargetResult → ℕ × Option String
unfolding failed_response
result_response wire r =
    if r.status == operation_failed
    then failed_response wire r r.error
    else (200, wire.marshal_result r)

-- The bytes, unless they do not encode or are sensitive.
safe_response : Codec → ℕ × Option String → Option (ℕ × String)
safe_response codec (status, none) = none
safe_response codec (status, some s) =
    if contains_sensitive_json codec s then none else some (status, s)

-- recoveredIdempotencyResponse
unfoldable pub recovered_idempotency_response :
    (bolt : Bolt)
    → {V : Type 0} → Wire V
    → String
    → bolt.Bucket (Cell Operation)
    → Option (ℕ × String)
unfolding terminal_result result_response safe_response
recovered_idempotency_response bolt wire id b =
    if id == "" then none else elim (terminal_result (operation bolt id b)) [
      | none ↦ none
      | some r ↦ safe_response wire.codec (result_response wire r)
    ]

-- What the journal says to a response that it is given to keep.
persisted : ℕ → String → ApiError → Option JournalError → Reply
persisted status response e none = raw status response
persisted status response e (some _) = failed 500 e

-- The status of a handler's result, and its bytes.
encoded : {V : Type 0} → Wire V → Result Error (ℕ × V) → ℕ × Option String
encoded wire (ok (status, v)) = (status, wire.marshal v)
encoded wire (err e) =
    (status_for_bridge_error (to_api_error e), wire.marshal_error (to_api_error e))

-- requestHash
unfoldable pub request_hash_of : {V : Type 0} → Wire V → Request → String
request_hash_of wire q =
    wire.sha256_hex (concat q.method (concat "\n" (concat q.request_uri (concat "\n" q.body))))

module _ (bolt : Bolt) {W V : Type 0} (wire : Wire V) where
  recovered_reply : String → String → ℕ → State bolt W → Option (ℕ × String) → State bolt W × Reply
  unfolding persisted
  recovered_reply key hash now s none = (
    s,
    failed 409 (record {
      code = err_idempotency_conflict;
      message = "Idempotent operation is still running";
      retryable = false;
      details = none;
    }),
  )
  recovered_reply key hash now s (some (status, response)) =
      let (b, e) = idempotency_put bolt wire.codec key hash status response now s.idempotency in
      (
        record s { idempotency = b },
        persisted status response
            (invalid "Bridge could not persist the recovered idempotent result") e,
      )

  answer : String → String → ℕ → State bolt W → ℕ × Option String → State bolt W × Reply
  unfolding persisted
  answer key hash now s (status, none) = (s, failed 500 (invalid "Bridge response encoding failed"))
  answer key hash now s (status, some response) =
      let (b, e) = idempotency_put bolt wire.codec key hash status response now s.idempotency in
      (
        record s { idempotency = b },
        persisted status response (invalid "Bridge could not persist the idempotent result") e,
      )

  run_handler :
      Handler bolt W V → String → String → ℕ → String → State bolt W → State bolt W × Reply
  unfolding Handler answer encoded
  run_handler handler key hash now body s =
      let ((operations, world), result) = handler (s.operations, s.world) body in
      answer key hash now
        (record { idempotency = s.idempotency; operations = operations; world = world })
        (encoded wire result)

  -- After IdempotencyBegin: an error, a record that was there, or the handler.
  pub resume :
      Handler bolt W V
      → String
      → String
      → ℕ
      → String
      → State bolt W
      → Result JournalError (IdempotencyRecord × Bool)
      → State bolt W × Reply
  unfolding recovered_reply run_handler
  resume handler key hash now body s (err e) = (s, failed 409 (to_api_error (journal_error e)))
  resume handler key hash now body s (ok (r, true)) =
      if not (eqb r.status 0)
      then (s, raw r.status r.response)
      else recovered_reply key hash now s
          (recovered_idempotency_response bolt wire r.operation_id s.operations)
  resume handler key hash now body s (ok (r, false)) = run_handler handler key hash now body s

  -- Server.mutation
  unfoldable pub mutation : Handler bolt W V → ℕ → Request → State bolt W → State bolt W × Reply
  unfolding resume operation_id_from_body
  mutation handler now q s =
      let key = trim_space q.idempotency_key in
      if ltb (len key) 8 || ltb 200 (len key)
      then (s, failed 400 (invalid "Mutation requires an Idempotency-Key of 8-200 characters"))
      else (let hash = request_hash_of wire q in
          let (b, begun) =
            idempotency_begin bolt key hash (operation_id_from_body wire.codec q.body) now
              s.idempotency in
          resume handler key hash now q.body (record s { idempotency = b }) begun)
