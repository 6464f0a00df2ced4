-- ===== src/Protocol/Errors.antt =====
-- internal/bridgeprotocol/types.go: the public error classes.
pub mod Laws
mod Tests
use toolhub.Common.{
  String, Bool, true, false, Option, none, some, List, [], ◌∷◌, ◌==◌, if◌then◌else◌,
}
use toolhub.Json.{Fields}

abbrev pub err_authentication : String
err_authentication = "authentication_failed"

abbrev pub err_replay : String
err_replay = "nonce_replay"

abbrev pub err_expired_request : String
err_expired_request = "request_expired"

abbrev pub err_idempotency_conflict : String
err_idempotency_conflict = "idempotency_conflict"

abbrev pub err_invalid_request : String
err_invalid_request = "invalid_request"

abbrev pub err_unsupported_operation : String
err_unsupported_operation = "unsupported_operation"

abbrev pub err_revision_conflict : String
err_revision_conflict = "revision_conflict"

abbrev pub err_target_unavailable : String
err_target_unavailable = "target_unavailable"

abbrev pub err_salt_job_missing : String
err_salt_job_missing = "salt_job_missing"

abbrev pub err_relay_port_conflict : String
err_relay_port_conflict = "relay_port_conflict"

abbrev pub err_relay_unhealthy : String
err_relay_unhealthy = "relay_unhealthy"

abbrev pub err_hermes_read_only : String
err_hermes_read_only = "hermes_read_only"

pub record ApiError : Type 0 where
  pub code : String
  pub message : String
  pub retryable : Bool
  pub details : Option Fields

-- A Go `error`: an ApiError, one of errors.New, or one that wraps another by `%w`.
pub data Error : Type 0 where
  api : ApiError → Error
  plain : String → Error
  wrapped : String → Error → Error

-- errors.As with a target of type *ApiError.
unfoldable pub as_api_error : Error → Option ApiError
as_api_error (api e) = some e
as_api_error (plain _) = none
as_api_error (wrapped _ e) = as_api_error e

pub record ApiErrorClass : Type 0 where
  pub message : String
  pub retryable : Bool

abbrev class : String → ApiErrorClass
class m = record { message = m; retryable = false }

abbrev retry_class : String → ApiErrorClass
retry_class m = record { message = m; retryable = true }

abbrev pub bounded_api_error_classes : List (String × ApiErrorClass)
bounded_api_error_classes =
    (err_authentication, class "Bridge authentication failed")
    ∷ (err_replay, class "Bridge request nonce was already used")
    ∷ (err_expired_request, class "Bridge request expired")
    ∷ (err_idempotency_conflict, class "Idempotency key conflicts with an existing request")
    ∷ (err_invalid_request, class "Request is invalid")
    ∷ (err_unsupported_operation, class "Operation is not supported")
    ∷ (err_revision_conflict, class "Runtime revision conflicts with the request")
    ∷ ("protected_scope", class "Protected scope cannot be modified")
    ∷ (err_target_unavailable, retry_class "Target is unavailable")
    ∷ ("managed_user_missing", class "Managed user is unavailable")
    ∷ ("salt_version_incompatible", class "Salt version is incompatible")
    ∷ (err_salt_job_missing, retry_class "Salt job result is unavailable")
    ∷ ("mcpm_missing", class "mcpm runtime is unavailable")
    ∷ ("mcpm_incompatible", class "mcpm runtime is incompatible")
    ∷ (err_relay_port_conflict, class "Relay port conflicts with another process")
    ∷ (err_relay_unhealthy, retry_class "Relay runtime is unhealthy")
    ∷ ("atomic_write_failed", class "Atomic write failed")
    ∷ ("backup_failed", class "Backup operation failed")
    ∷ (err_hermes_read_only, class "Hermes target is read-only")
    ∷ []

-- A lookup in a Go map that is held as a list.
unfoldable pub find_class : String → List (String × ApiErrorClass) → Option ApiErrorClass
find_class k [] = none
find_class k ((j, v) ∷ m) = if j == k then some v else find_class k m

unfoldable pub class_of : String → Option ApiErrorClass
class_of k = find_class k bounded_api_error_classes

-- The code with its class where it is public, else what is given.
public_or : String × ApiErrorClass → String → Option ApiErrorClass → String × ApiErrorClass
public_or other c none = other
public_or other c (some k) = (c, k)

abbrev to_error : String × ApiErrorClass → ApiError
to_error (c, k) = record { code = c; message = k.message; retryable = k.retryable; details = none }

-- An unknown fallback counts as invalid_request.
fallback_class : String → String × ApiErrorClass
fallback_class fallback =
    public_or (err_invalid_request, class "Request is invalid") fallback (class_of fallback)

classified : String × ApiErrorClass → Option ApiError → String × ApiErrorClass
classified fallback none = fallback
classified fallback (some e) = public_or fallback e.code (class_of e.code)

-- BoundedAPIError of an error that is not nil.
unfoldable pub bounded_api_error : Error → String → ApiError
unfolding classified fallback_class public_or
bounded_api_error e fallback = to_error (classified (fallback_class fallback) (as_api_error e))
