-- ===== src/Bridge/Auth.antt =====
-- internal/bridgeprotocol/auth.go and VerifyPayload of internal/security/token.go: the signature of
-- a request. Times are in nanoseconds since 1970.
pub mod Sign
mod RoundTrip
mod Tests
use Prim.Native.String.{◌++◌ as concat}
use toolhub.Common.{
  ℕ, ◌+◌, ◌-◌, ◌*◌, suc, Char, code, String, len, Bool, true, false, not, ◌&&◌, ◌||◌, Option, none,
  some, List, [], ◌∷◌, ltb, leb, eqb, ◌==◌, if◌then◌else◌,
}
use toolhub.Common.Text.{to_upper}
use toolhub.Common.Int.{ℤ, pos, negsuc}
use toolhub.Protocol.Errors.{err_authentication, err_expired_request}

-- The primitives of Go's crypto, and Unicode's upper case above ASCII.
pub record Crypto : Type 0 where
  pub sha256_hex : String → String
  pub hmac_sha256 : String → String → List ℕ
  pub unicode_upper : Char → Char

-- What a request carries; an absent header is the empty text.
pub record Request : Type 0 where
  pub method : String
  pub request_uri : String
  pub timestamp : String
  pub nonce : String
  pub signature : String
  pub idempotency_key : String
  pub body : String

pub data AuthError : Type 0 where
  headers_required bad_timestamp expired bad_nonce bad_signature : AuthError

unfoldable pub error_code : AuthError → String
error_code expired = err_expired_request
error_code _ = err_authentication

abbrev pub second : ℕ
second = 1000000000

parse_digits : ℕ → String → Option ℕ
parse_digits n String.[] = some n
parse_digits n (String.◌∷◌ c s) =
    let rest = parse_digits (n * 10 + (code c - b'0')) s in
    if leb b'0' (code c) && leb (code c) b'9' then rest else none

-- The digits after a sign, at least one.
parse_magnitude : String → Option ℕ
parse_magnitude s = if s == "" then none else parse_digits 0 s

abbrev int_max : ℕ
int_max = 9223372036854775807

positive : Option ℕ → Option ℤ
positive none = none
positive (some n) = if leb n int_max then some (pos n) else none

negative : Option ℕ → Option ℤ
negative none = none
negative (some n) =
    if eqb n 0 then some (pos 0) else if leb n (int_max + 1) then some (negsuc (n - 1)) else none

-- strconv.ParseInt(s, 10, 64)
unfoldable pub parse_int : String → Option ℤ
unfolding parse_digits parse_magnitude positive negative
parse_int String.[] = none
parse_int (String.◌∷◌ c s) =
    if eqb (code c) b'-'
    then negative (parse_magnitude s)
    else if eqb (code c) b'+'
    then positive (parse_magnitude s)
    else positive (parse_magnitude (String.◌∷◌ c s))

hex_digit : ℕ → Option ℕ
hex_digit c =
    if leb b'0' c && leb c b'9'
    then some (c - b'0')
    else if leb b'a' c && leb c b'f'
    then some (c - b'a' + 10)
    else if leb b'A' c && leb c b'F'
    then some (c - b'A' + 10)
    else none

pair_byte : Option ℕ → Option ℕ → Option (List ℕ) → Option (List ℕ)
pair_byte (some h) (some l) (some bs) = some ((h * 16 + l) ∷ bs)
pair_byte _ _ _ = none

-- hex.DecodeString
unfoldable pub decode_hex : String → Option (List ℕ)
unfolding hex_digit pair_byte
decode_hex String.[] = some []
decode_hex (String.◌∷◌ c String.[]) = none
decode_hex (String.◌∷◌ c (String.◌∷◌ d s)) =
    pair_byte (hex_digit (code c)) (hex_digit (code d)) (decode_hex s)

-- hmac.Equal
unfoldable pub bytes_equal : List ℕ → List ℕ → Bool
bytes_equal [] [] = true
bytes_equal (a ∷ as') (b ∷ bs) = eqb a b && bytes_equal as' bs
bytes_equal _ _ = false

-- Whether a clock is more than the skew away from a timestamp in seconds.
unfoldable pub is_outside : ℕ → ℕ → ℤ → Bool
is_outside now max_skew (pos s) =
    ltb (s * second + max_skew) now || ltb (now + max_skew) (s * second)
is_outside now max_skew (negsuc n) = ltb max_skew (now + suc n * second)

module _ (crypto : Crypto) where
  open crypto use {sha256_hex, hmac_sha256, unicode_upper}

  unfoldable pub signing_bytes : Request → String
  unfolding to_upper
  signing_bytes r = concat (to_upper unicode_upper r.method) (
      concat "\n" (
        concat r.request_uri (
          concat "\n"
            (concat r.timestamp (concat "\n" (concat r.nonce (concat "\n" (sha256_hex r.body))))))))

  -- security.VerifyPayload
  unfoldable pub verify_payload : String → String → String → Bool
  verify_payload key payload signature = elim (decode_hex signature) [
    | none ↦ false
    | some want ↦ bytes_equal (hmac_sha256 key payload) want
  ]

  -- VerifyRequest
  unfoldable pub verify_request : Request → String → ℕ → ℕ → Option AuthError
  verify_request r key now max_skew =
      if r.timestamp == "" || r.nonce == "" || r.signature == ""
      then some headers_required
      else elim (parse_int r.timestamp) [
        | none ↦ some bad_timestamp
        | some seconds ↦
            if is_outside now max_skew seconds
            then some expired
            else if ltb (len r.nonce) 16 || ltb 128 (len r.nonce)
            then some bad_nonce
            else if not (verify_payload key (signing_bytes r) r.signature)
            then some bad_signature
            else none
      ]
