-- ===== src/Protocol/Errors/Tests.antt =====
-- Witnesses and tests of the error classes.
use toolhub.Common.{false, none, ◌≡◌, refl}
use toolhub.Protocol.Errors.{
  Error, api, plain, wrapped, as_api_error, class_of, find_class, bounded_api_error,
  err_relay_unhealthy, err_invalid_request,
}
use toolhub.Protocol.Errors.Laws.{IsPublic, bounded_api_error-IsPublic, bounded_api_error_idem}

abbrev secret : Error
secret = wrapped "commit" (
    api (record {
      code = err_relay_unhealthy;
      message = "token abc";
      retryable = false;
      details = none;
    }))

message_dropped :
    (bounded_api_error secret err_invalid_request).message ≡ "Relay runtime is unhealthy"
unfolding bounded_api_error as_api_error class_of find_class
message_dropped = refl

unknown_fallback : (bounded_api_error (plain "disk full") "no_such_code").code ≡ err_invalid_request
unfolding bounded_api_error as_api_error class_of find_class
unknown_fallback = refl

bounded_api_error-IsPublic_example : IsPublic (bounded_api_error secret err_invalid_request)
bounded_api_error-IsPublic_example = bounded_api_error-IsPublic secret err_invalid_request

bounded_api_error_idem_example :
    bounded_api_error (api (bounded_api_error secret err_invalid_request)) err_relay_unhealthy
    ≡ bounded_api_error secret err_invalid_request
bounded_api_error_idem_example =
    bounded_api_error_idem secret err_invalid_request err_relay_unhealthy
