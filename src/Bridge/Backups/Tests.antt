-- ===== src/Bridge/Backups/Tests.antt =====
-- A witness and tests of the backups, with a list of entries for bbolt and a count of the removals.
use toolhub.Common.{
  All, ℕ, ◌+◌, ◌*◌, ◌≤◌, String, Bool, false, none, List, [], ◌∷◌, Result, ok, member,
  if◌then◌else◌, ◌≡◌, refl,
}
use toolhub.Common.Int.{pos}
use toolhub.Bridge.Bolt.{Cell, json}
use toolhub.Bridge.Bolt.Assoc.{
  assoc, Entries, empty_bucket, put_entry, delete_entry, get_entry, list_entries, without,
}
use toolhub.Bridge.Auth.{second}
use toolhub.Bridge.Backups.{
  Backup, BackupError, is_newer, insert_backup, sort_backups, decode_backups, expired_backups,
  remove_all, backups, delete_all, collected, collect, gc_backups,
}
use toolhub.Bridge.Backups.Stored.{stored as backups_in, left, AreRecent}
use toolhub.Bridge.Backups.Due.{IsDue}
use toolhub.Bridge.Backups.Retention.{gc_backups-limit}

abbrev backup : String → ℕ → Backup
backup id day = record {
  id = id;
  target_id = "t1";
  node_kind = "local";
  salt_minion_id = "";
  runtime = "codex";
  source_operation_id = "";
  revision = "r";
  created_at = day * (86400 * second);
}

abbrev stored : Entries (Cell Backup)
stored = put_entry "b1" (json (backup "b1" 10)) (
    put_entry "b2" (json (backup "b2" 40))
      (put_entry "b3" (json (backup "b3" 41)) (empty_bucket (Cell Backup))))

abbrev count : Backup → ℕ → ℕ × Bool
count b n = (n + 1, false)

abbrev result : (Entries (Cell Backup) × ℕ) × Result BackupError (List String)
result = gc_backups assoc count (42 * (86400 * second)) (pos 30) (pos 1) stored 0

-- `b1` is too old, and `b2` is one too many.
two_removed : result.1 ≡ ok ("b2" ∷ "b1" ∷ [])
unfolding gc_backups collect collected remove_all delete_all backups decode_backups sort_backups
    insert_backup is_newer expired_backups put_entry delete_entry get_entry list_entries without
    empty_bucket
two_removed = refl

gc_backups-limit_example :
    (get_entry "b2" result.0.0
      ≡ (if member "b2" ("b2" ∷ "b1" ∷ []) then none else get_entry "b2" stored))
    × All (IsDue (12 * (86400 * second)) 1 (backups_in (list_entries stored))) ("b2" ∷ "b1" ∷ [])
    × (left "t1" ("b2" ∷ "b1" ∷ []) (backups_in (list_entries stored)) ≤ 1)
    × AreRecent (12 * (86400 * second)) ("b2" ∷ "b1" ∷ []) (backups_in (list_entries stored))
unfolding gc_backups collect collected remove_all delete_all backups decode_backups sort_backups
    insert_backup is_newer expired_backups put_entry delete_entry get_entry list_entries without
    empty_bucket
gc_backups-limit_example =
    gc_backups-limit assoc count (42 * (86400 * second)) (pos 30) (pos 1) stored result.0.0 0 2
      ("b2" ∷ "b1" ∷ []) "b2" "t1" refl
