-- ===== src/Bridge/Operation.antt =====
-- internal/bridgeprotocol/types.go: operations and their results, and what internal/bridge/journal.go
-- keeps of them. A time is its nanoseconds since 1970.
pub mod Encode
pub mod Safe
use toolhub.Common.{
  ℕ, String, Bool, true, false, ◌||◌, Option, none, some, List, [], ◌∷◌, map, ◌==◌, if◌then◌else◌,
}
use toolhub.Common.Int.{ℤ}
use toolhub.Json.{Fields}
use toolhub.Protocol.Errors.{
  ApiError, api, bounded_api_error, err_invalid_request, err_relay_unhealthy,
}
use toolhub.Protocol.Manifest.{DesiredManifest}

abbrev pub operation_running : String
operation_running = "running"

abbrev pub operation_succeeded : String
operation_succeeded = "succeeded"

abbrev pub operation_partial : String
operation_partial = "partial"

abbrev pub operation_failed : String
operation_failed = "failed"

abbrev pub operation_cancelled : String
operation_cancelled = "cancelled"

abbrev pub health_blocked : String
health_blocked = "blocked"

pub record RelayCapabilityCounts : Type 0 where
  pub tools : ℤ
  pub resources : ℤ
  pub resource_templates : ℤ
  pub prompts : ℤ

pub record RelayMemberStatus : Type 0 where
  pub member_id : String
  pub name : String
  pub status : String
  pub capability_kinds : List String
  pub capabilities : RelayCapabilityCounts
  pub checked_at : ℕ
  pub error_code : String
  pub error_reason : String

pub record RelayStatus : Type 0 where
  pub state : String
  pub healthy : Bool
  pub intentional_paused : Bool
  pub endpoint : String
  pub fixed_port : ℤ
  pub systemd_enabled : Bool
  pub version : String
  pub contract : String
  pub member_statuses : List RelayMemberStatus
  pub error_code : String
  pub error_reason : String

-- A nil pointer or map is `none`.
pub record TargetResult : Type 0 where
  pub status : String
  pub health : String
  pub target_revision : String
  pub backup_id : String
  pub repaired : Bool
  pub manifest : Option DesiredManifest
  pub relay : Option RelayStatus
  pub details : Option Fields
  pub error : Option ApiError

pub record OperationTarget : Type 0 where
  pub target_id : String
  pub status : String
  pub salt_jid : String
  pub result : Option TargetResult
  pub error : Option ApiError

pub record Operation : Type 0 where
  pub id : String
  pub kind : String
  pub status : String
  pub targets : List OperationTarget
  pub created_at : ℕ
  pub updated_at : ℕ

-- IsTerminalOperationStatus
unfoldable pub is_terminal_operation_status : String → Bool
is_terminal_operation_status s =
    s == operation_succeeded
    || s == operation_partial
    || s == operation_failed
    || s == operation_cancelled

-- The class of a code and of any other, with relay_unhealthy for what is not public.
unfoldable pub relay_error : String → ApiError
relay_error code =
    bounded_api_error
      (api (record { code = code; message = ""; retryable = false; details = none }))
      err_relay_unhealthy

unfoldable pub safe_member_status : RelayMemberStatus → RelayMemberStatus
unfolding relay_error
safe_member_status m = if m.error_code == "" then m else record m {
  error_code = (relay_error m.error_code).code;
  error_reason = (relay_error m.error_code).message;
}

safe_relay_error : RelayStatus → RelayStatus
unfolding relay_error
safe_relay_error s = if s.error_code == "" then s else record s {
  error_code = (relay_error s.error_code).code;
  error_reason = (relay_error s.error_code).message;
}

-- journalSafeRelayStatus
unfoldable pub journal_safe_relay_status : Option RelayStatus → Option RelayStatus
unfolding safe_relay_error safe_member_status
journal_safe_relay_status none = none
journal_safe_relay_status (some s) =
    some
      (record (safe_relay_error s) { member_statuses = map safe_member_status s.member_statuses })

unfoldable pub safe_error : Option ApiError → Option ApiError
safe_error none = none
safe_error (some e) = some (bounded_api_error (api e) err_invalid_request)

-- journalSafeTargetResult
unfoldable pub journal_safe_target_result : TargetResult → TargetResult
unfolding journal_safe_relay_status safe_error
journal_safe_target_result r = record {
  status = r.status;
  health = r.health;
  target_revision = r.target_revision;
  backup_id = r.backup_id;
  repaired = r.repaired;
  manifest = none;
  relay = journal_safe_relay_status r.relay;
  details = none;
  error = safe_error r.error;
}
