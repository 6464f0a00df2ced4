-- ===== src/Bridge/Auth/Tests.antt =====
-- Runs of the numerals, the keys and the signature, and the theorem at a request.
use mathlib.Core.List.{cons-ne-nil}
use toolhub.Common.{◌*◌, none, some, [], ◌∷◌, ◌≡◌, refl, arith}
use toolhub.Common.Decimal.{digits, decimal}
use toolhub.Common.Text.{trim_space}
use toolhub.Common.Int.{negsuc}
use toolhub.Bridge.Auth.{Crypto, Request, second, parse_int, decode_hex, verify_request}
use toolhub.Bridge.Auth.RoundTrip.{verify_request-sign_request}
use toolhub.Bridge.Auth.Sign.{encode_hex, sign_request, parse_key}
use toolhub.Files.{utf8}

abbrev crypto : Crypto
crypto = record {
  sha256_hex = λ _. "00";
  hmac_sha256 = λ _ _. 7 ∷ 255 ∷ [];
  unicode_upper = λ c. c;
}

abbrev request : Request
request = record {
  method = "post";
  request_uri = "/v1/scan";
  timestamp = "";
  nonce = "";
  signature = "";
  idempotency_key = "";
  body = "";
}

numerals_run :
    (decimal 1700000000 ≡ "1700000000")
    × (decimal 0 ≡ "0")
    × (parse_int "-12" ≡ some (negsuc 11))
    × (parse_int "12x" ≡ none)
    × (encode_hex (7 ∷ 255 ∷ []) ≡ "07ff")
    × (decode_hex "07Ff" ≡ some (7 ∷ 255 ∷ []))
    × (decode_hex "0" ≡ none)
unfolding decimal digits parse_int encode_hex decode_hex
numerals_run = (refl, refl, refl, refl, refl, refl, refl)

parse_key_run :
    (parse_key "short" ≡ none)
    × (parse_key " abcdefghijklmnopqrstuvwxyz012345\n"
        ≡ some (utf8 "abcdefghijklmnopqrstuvwxyz012345"))
    × (parse_key "0000000000000000000000000000000000000000000000000000000000000000"
        ≡ some (
            0 ∷ 0 ∷ 0 ∷ 0 ∷ 0 ∷ 0 ∷ 0 ∷ 0 ∷ 0 ∷ 0 ∷ 0 ∷ 0 ∷ 0 ∷ 0 ∷ 0 ∷ 0 ∷ 0 ∷ 0 ∷ 0 ∷ 0 ∷ 0 ∷ 0
            ∷ 0 ∷ 0 ∷ 0 ∷ 0 ∷ 0 ∷ 0 ∷ 0 ∷ 0 ∷ 0 ∷ 0 ∷ []))
unfolding parse_key trim_space utf8 decode_hex
parse_key_run = (refl, refl, refl)

-- The Bridge's clock is three seconds ahead.
verify_request-sign_request_example :
    verify_request crypto
      (sign_request crypto request "key" (1700000000 * second) "0123456789abcdef")
      "key"
      (1700000003 * second)
      (300 * second)
    ≡ none
verify_request-sign_request_example =
    verify_request-sign_request crypto request "key" "0123456789abcdef" (1700000000 * second)
      (1700000003 * second) (300 * second)
      (λ _. (λ h. absurd (cons-ne-nil 7 (255 ∷ []) h), (omega arith, (omega arith, tt))))
      (omega arith) (omega arith) (omega arith) (omega arith) (omega arith)
