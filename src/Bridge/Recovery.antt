-- ===== src/Bridge/Recovery.antt =====
-- internal/bridge/journal.go: RecoverOperations and RecoverPendingIdempotency, which the Bridge calls when
-- it starts. RecoverOperations puts into the bucket inside its ForEach, and bbolt does not define what a
-- ForEach visits once its bucket has changed: the keys that it visits, in any order, more than once or not
-- at all, are an argument, and at each visit the value is the one that stands there. The cursor of
-- RecoverPendingIdempotency, which deletes by the cursor itself, runs over the entries that there are.
pub mod Settled
mod Tests
use toolhub.Common.{
  ℕ, String, Bool, true, false, not, ◌&&◌, ◌||◌, Option, none, some, is_none, List, [], ◌∷◌, map,
  any, length, Result, ok, err, ◌>>=◌, eqb, ◌==◌, if◌then◌else◌,
}
use toolhub.Protocol.Errors.{ApiError, err_salt_job_missing}
use toolhub.Bridge.Bolt.{Bolt, Cell, json, corrupt}
use toolhub.Bridge.Journal.{IdempotencyRecord, JournalError}
use toolhub.Bridge.Journal.JournalError.{malformed, not_stored}
use toolhub.Bridge.Operation.{
  Operation, OperationTarget, TargetResult, operation_running, operation_failed, health_blocked,
  is_terminal_operation_status,
}

abbrev pub restarted : ApiError
restarted = record {
  code = err_salt_job_missing;
  message = "Bridge restarted before the target result was observed";
  retryable = true;
  details = none;
}

abbrev pub blocked : TargetResult
blocked = record {
  status = operation_failed;
  health = health_blocked;
  target_revision = "";
  backup_id = "";
  repaired = false;
  manifest = none;
  relay = none;
  details = none;
  error = some restarted;
}

abbrev pub runs : OperationTarget → Bool
runs t = t.status == operation_running

unfoldable pub settle_target : OperationTarget → OperationTarget
settle_target t =
    if runs t
    then record t { status = operation_failed; error = some restarted; result = some blocked }
    else t

-- `changed` of the source: the operation or one of its targets is running.
unfoldable pub is_running : Operation → Bool
is_running o = any runs o.targets || o.status == operation_running

unfoldable pub settle : ℕ → Operation → Operation
settle now o = record o {
  targets = map settle_target o.targets;
  status = if o.status == operation_running then operation_failed else o.status;
  updated_at = now;
}

-- An operation after the restart.
unfoldable pub recovered : ℕ → Operation → Operation
recovered now o = if is_running o then settle now o else o

module _ (bolt : Bolt) where
  open bolt use {Bucket, get, put, delete, entries, accepts}

  module _ (R : Type 0) where
    -- The buckets of the operations and of the Salt recovery records.
    abbrev pub Buckets : Type 0
    Buckets = Bucket (Cell Operation) × Bucket R

    -- The function that RecoverOperations gives to ForEach.
    unfoldable pub recover_entry :
        ℕ → String → Cell Operation → Buckets → Result JournalError Buckets
    recover_entry now key corrupt buckets = err malformed
    recover_entry now key (json o) (ops, salt) =
        if not (is_running o)
        then ok (ops, salt)
        else if accepts key
        then ok (put key (json (settle now o)) ops, delete key salt)
        else err not_stored

    -- One visit; a key that is not in the bucket is not visited.
    unfoldable pub recover_visit : ℕ → String → Buckets → Result JournalError Buckets
    recover_visit now key (ops, salt) = elim (get key ops) [
      | none ↦ ok (ops, salt)
      | some cell ↦ recover_entry now key cell (ops, salt)
    ]

    -- RecoverOperations; the transaction is undone where it returns an error.
    unfoldable pub recover_operations : ℕ → List String → Buckets → Result JournalError Buckets
    recover_operations now [] buckets = ok buckets
    recover_operations now (key ∷ visits) buckets =
        recover_visit now key buckets >>= recover_operations now visits

  -- A pending request is kept where its operation has ended with one result.
  unfoldable pub has_result : Option (Cell Operation) → Bool
  has_result (some (json o)) =
      is_terminal_operation_status o.status
      && eqb (length o.targets) 1
      && not (any (λ t. is_none t.result) o.targets)
  has_result _ = false

  is_kept : IdempotencyRecord → Bucket (Cell Operation) → Bool
  is_kept r ops = not (r.operation_id == "") && has_result (get r.operation_id ops)

  -- The loop of the cursor.
  unfoldable pub recover_pending_entries :
      List (String × Cell IdempotencyRecord)
      → Bucket (Cell Operation)
      → Bucket (Cell IdempotencyRecord)
      → Result JournalError (Bucket (Cell IdempotencyRecord))
  unfolding is_kept
  recover_pending_entries [] ops b = ok b
  recover_pending_entries ((key, corrupt) ∷ es) ops b = err malformed
  recover_pending_entries ((key, json r) ∷ es) ops b =
      recover_pending_entries es ops
        (if not (eqb r.status 0) || is_kept r ops then b else delete key b)

  -- RecoverPendingIdempotency
  unfoldable pub recover_pending_idempotency :
      Bucket (Cell Operation)
      → Bucket (Cell IdempotencyRecord)
      → Result JournalError (Bucket (Cell IdempotencyRecord))
  recover_pending_idempotency ops b = recover_pending_entries (entries b) ops b
