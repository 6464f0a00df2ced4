-- ===== src/Bridge/Recovery/Tests.antt =====
-- A journal with a running operation at the restart, with a list of entries for bbolt.
use toolhub.Common.{String, true, false, none, some, List, [], ◌∷◌, member, ok, ◌≡◌, refl, ◌⊎◌}
use toolhub.Bridge.Bolt.{Cell, json}
use toolhub.Bridge.Bolt.Assoc.{
  Entries, assoc, empty_bucket, without, put_entry, get_entry, delete_entry, list_entries,
}
use toolhub.Bridge.Journal.{IdempotencyRecord}
use toolhub.Bridge.Operation.{Operation, is_terminal_operation_status}
use toolhub.Bridge.Recovery.{
  Buckets, blocked, restarted, settle_target, is_running, settle, recover_entry, recover_visit,
  recover_operations, has_result, is_kept, recover_pending_entries, recover_pending_idempotency,
}
use toolhub.Bridge.Recovery.Settled.{IsSettled, runs_at_all, recover_operations-get}

abbrev waiting : Operation
waiting = record {
  id = "a";
  kind = "apply";
  status = "running";
  targets =
      record { target_id = "t"; status = "running"; salt_jid = ""; result = none; error = none }
      ∷ [];
  created_at = 1;
  updated_at = 1;
}

abbrev ended : Operation
ended = record waiting {
  status = "failed";
  targets =
      record {
        target_id = "t";
        status = "failed";
        salt_jid = "";
        result = some blocked;
        error = some restarted;
      }
      ∷ [];
  updated_at = 9;
}

abbrev operations : Entries (Cell Operation)
operations = put_entry "a" (json waiting) (empty_bucket (Cell Operation))

abbrev salt : Entries String
salt = put_entry "a" "jid" (empty_bucket String)

abbrev after : Buckets assoc String
after = (put_entry "a" (json ended) operations, delete_entry String "a" salt)

-- A ForEach that visits the key again, after it has put it, and another key that is not there.
abbrev visits : List String
visits = "a" ∷ "a" ∷ "b" ∷ []

recover_run : recover_operations assoc String 9 visits (operations, salt) ≡ ok after
unfolding recover_operations recover_visit recover_entry is_running settle settle_target put_entry
    get_entry empty_bucket list_entries without
recover_run = refl

recover_operations-get_example :
    ((get_entry "a" operations ≡ none) × (get_entry "a" (after.0) ≡ none))
    ⊎ (((member "a" visits ≡ false) × (get_entry "a" (after.0) ≡ get_entry "a" operations))
        ⊎ ((o : Operation) × (p : Operation) × (member "a" visits ≡ true)
            × (get_entry "a" operations ≡ some (json o))
            × (get_entry "a" (after.0) ≡ some (json p))
            × IsSettled 9 o p
            × (runs_at_all p ≡ false)))
recover_operations-get_example =
    recover_operations-get assoc String 9 "a" visits operations salt after recover_run

abbrev pending : String → IdempotencyRecord
pending id = record {
  request_hash = "h";
  operation_id = id;
  status = 0;
  response = "null";
  created_at = 1;
}

abbrev requests : Entries (Cell IdempotencyRecord)
requests =
    put_entry "k" (json (pending "a"))
      (put_entry "l" (json (pending "b")) (empty_bucket (Cell IdempotencyRecord)))

-- The request of the operation that has ended is kept, the other is forgotten.
pending_run :
    recover_pending_idempotency assoc (after.0) requests
    ≡ ok (delete_entry (Cell IdempotencyRecord) "l" requests)
unfolding recover_pending_idempotency recover_pending_entries has_result is_kept
    is_terminal_operation_status put_entry get_entry delete_entry list_entries empty_bucket without
pending_run = refl
