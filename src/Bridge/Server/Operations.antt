-- ===== src/Bridge/Server/Operations.antt =====
-- internal/bridge/server.go: how a handler records its operation. A logged error changes nothing.
use toolhub.Common.{
  ℕ, ◌≤◌, String, len, none, some, List, [], ◌∷◌, Result, ok, err, ◌==◌, ◌≡◌, refl, arith, eq_iff,
  if◌then◌else◌,
}
use toolhub.Bridge.Bolt.{Bolt, Cell, json}
use toolhub.Bridge.Operation.{
  TargetResult, OperationTarget, Operation, operation_running, operation_failed,
  operation_succeeded, journal_safe_target_result,
}
use toolhub.Bridge.Operation.Encode.{Codec, encode_operation, optional}
use toolhub.Bridge.Operation.Safe.{
  Clean, CleanOption, operation-Clean, result-Clean, target_error-Clean,
}
use toolhub.Bridge.Journal.{JournalError, put_operation, operation}

-- The operation while the adapter works.
running_operation : String → String → String → ℕ → Operation
running_operation id kind target now = record {
  id = id;
  kind = kind;
  status = operation_running;
  targets =
      record {
        target_id = target;
        status = operation_running;
        salt_jid = "";
        result = none;
        error = none;
      }
      ∷ [];
  created_at = now;
  updated_at = now;
}

-- What an operation that is already there hands on: when it began and its Salt job.
target_jid : List OperationTarget → String
target_jid (t ∷ []) = t.salt_jid
target_jid _ = ""

created_and_jid : ℕ → Result JournalError Operation → ℕ × String
unfolding target_jid
created_and_jid now (err e) = (now, "")
created_and_jid now (ok o) = (o.created_at, target_jid o.targets)

status_or_failed : String → String
status_or_failed s = if s == "" then operation_failed else s

abbrev finished_target : String → String → String → TargetResult → OperationTarget
finished_target target status jid r = record {
  target_id = target;
  status = status;
  salt_jid = jid;
  result = some (journal_safe_target_result r);
  error = if status == operation_succeeded then none else (journal_safe_target_result r).error;
}

finished_operation : String → String → String → ℕ → ℕ × String → TargetResult → Operation
unfolding status_or_failed
finished_operation id kind target now (created, jid) r =
    let status = status_or_failed r.status in
    record {
      id = id;
      kind = kind;
      status = status;
      targets = finished_target target status jid r ∷ [];
      created_at = created;
      updated_at = now;
    }

module _ (bolt : Bolt) (codec : Codec) where
  open bolt use {Bucket, get, put, accepts, accepts-len, get-put}

  -- persistRunningOperation
  unfoldable pub persist_running_operation :
      String → String → String → ℕ → Bucket (Cell Operation) → Bucket (Cell Operation)
  unfolding running_operation
  persist_running_operation id kind target now b =
      (put_operation bolt codec (running_operation id kind target now) b).0

  -- persistSafeOperation
  unfoldable pub persist_safe_operation :
      String
      → String
      → String
      → ℕ
      → TargetResult
      → Bucket (Cell Operation)
      → Bucket (Cell Operation)
  unfolding finished_operation created_and_jid
  persist_safe_operation id kind target now r b =
      (put_operation bolt codec
        (finished_operation id kind target now (created_and_jid now (operation bolt id b)) r) b).0

  put_operation-Clean :
      (o : Operation) (b : Bucket (Cell Operation))
      → Clean codec (encode_operation codec o)
      → 1 ≤ len o.id
      → len o.id ≤ 32768
      → operation bolt o.id (put_operation bolt codec o b).0 ≡ ok o
  unfolding put_operation operation Clean
  put_operation-Clean o b c l u =
      rw (c, accepts-len o.id l u, get-put o.id o.id (json o) b, operation)
        (ground (arith, eq_iff o.id o.id))

  running_operation-Clean :
      (id kind target : String) (now : ℕ)
      → Clean codec (encode_operation codec (running_operation id kind target now))
  unfolding running_operation optional CleanOption Clean
  running_operation-Clean id kind target now =
      operation-Clean codec (running_operation id kind target now) _ refl tt tt

  finished_operation-Clean :
      (id kind target : String) (now : ℕ) (p : ℕ × String) (r : TargetResult)
      → Clean codec (encode_operation codec (finished_operation id kind target now p r))
  unfolding finished_operation
  finished_operation-Clean id kind target now (created, jid) r =
      operation-Clean codec (finished_operation id kind target now (created, jid) r)
        (finished_target target (status_or_failed r.status) jid r) refl (result-Clean codec r)
        (target_error-Clean codec (status_or_failed r.status == operation_succeeded) r)

  -- What a handler records can be read back, whatever the adapter returned: it is never refused as
  -- sensitive. It is an operation of the id, the kind and the one target given, created when the handler
  -- began and updated when it ended, with no Salt job; its status is the result's, or failed where that is
  -- empty, its result is the journal's safe one, and its error is that one's, or none after a success. The
  -- id is one that bbolt takes as a key.
  pub persist_safe_operation-operation :
      (id kind target : String) (t u : ℕ) (r : TargetResult) (b : Bucket (Cell Operation))
      → 1 ≤ len id
      → len id ≤ 32768
      → operation bolt id
          (persist_safe_operation id kind target u r (persist_running_operation id kind target t b))
        ≡ ok (record {
          id = id;
          kind = kind;
          status = if r.status == "" then "failed" else r.status;
          targets =
              record {
                target_id = target;
                status = if r.status == "" then "failed" else r.status;
                salt_jid = "";
                result = some (journal_safe_target_result r);
                error =
                    if (if r.status == "" then "failed" else r.status) == "succeeded"
                    then none
                    else (journal_safe_target_result r).error;
              }
              ∷ [];
          created_at = t;
          updated_at = u;
        })
  unfolding persist_safe_operation persist_running_operation created_and_jid running_operation
      finished_operation status_or_failed target_jid
  persist_safe_operation-operation id kind target t u r b l h =
      let began : operation bolt id (persist_running_operation id kind target t b)
          ≡ ok (running_operation id kind target t) =
        put_operation-Clean (running_operation id kind target t) b
          (running_operation-Clean id kind target t) l h in
      rw (began, persist_safe_operation)
        (put_operation-Clean (finished_operation id kind target u (t, "") r) _
          (finished_operation-Clean id kind target u (t, "") r) l h)
