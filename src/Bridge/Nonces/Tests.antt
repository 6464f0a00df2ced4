-- ===== src/Bridge/Nonces/Tests.antt =====
-- A witness and tests of the nonces, with a list of entries for bbolt and a constant digest.
use toolhub.Common.{◌*◌, [], ◌∷◌, ◌≡◌, ◌≢◌, refl, arith}
use toolhub.Bridge.Bolt.Assoc.{
  assoc, empty_bucket, without, put_entry, delete_entry, get_entry, list_entries,
}
use toolhub.Bridge.Auth.{
  Crypto, Request, second, verify_request, verify_payload, parse_int, decode_hex, bytes_equal,
  is_outside, expired,
}
use toolhub.Bridge.Nonces.{
  served, unauthorized, expire, sweep, accept_nonce, nonce_verdict, authenticate,
}
use toolhub.Bridge.Nonces.Replay.{authenticate_all, authenticate-replay}

abbrev toy : Crypto
toy = record { sha256_hex = λ s. "00"; hmac_sha256 = λ k s. 171 ∷ 205 ∷ []; unicode_upper = λ c. c }

abbrev request : Request
request = record {
  method = "post";
  request_uri = "/v1/targets/apply";
  timestamp = "1000";
  nonce = "0123456789abcdef";
  signature = "abCD";
  idempotency_key = "key-00001";
  body = "{}";
}

abbrev other : Request
other = record request { timestamp = "1010"; nonce = "fedcba9876543210" }

request_served : (authenticate assoc toy "k" (1000 * second) request (empty_bucket _)).1 ≡ served
unfolding authenticate accept_nonce nonce_verdict verify_request verify_payload parse_int decode_hex
    bytes_equal is_outside sweep expire empty_bucket get_entry put_entry delete_entry list_entries
    without
request_served = refl

other_served : (authenticate assoc toy "k" (1010 * second) other (empty_bucket _)).1 ≡ served
unfolding authenticate accept_nonce nonce_verdict verify_request verify_payload parse_int decode_hex
    bytes_equal is_outside sweep expire empty_bucket get_entry put_entry delete_entry list_entries
    without
other_served = refl

late_refused :
    (authenticate assoc toy "k" (1031 * second) request (empty_bucket _)).1 ≡ unauthorized expired
unfolding authenticate accept_nonce nonce_verdict verify_request verify_payload parse_int decode_hex
    bytes_equal is_outside sweep expire empty_bucket get_entry put_entry delete_entry list_entries
    without
late_refused = refl

authenticate-replay_example :
    (authenticate assoc toy "k" (1020 * second) request (
      authenticate_all assoc toy "k"
        ((1010 * second, other) ∷ [])
        (authenticate assoc toy "k" (1000 * second) request (empty_bucket _)).0)).1
    ≢ served
authenticate-replay_example =
    authenticate-replay assoc toy "k" request request (1000 * second) (1020 * second)
      ((1010 * second, other) ∷ []) (empty_bucket _) refl refl (omega arith, tt) request_served
