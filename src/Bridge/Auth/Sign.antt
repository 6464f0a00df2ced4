-- ===== src/Bridge/Auth/Sign.antt =====
-- internal/bridgeprotocol/auth.go: SignRequest and ParseKey, with SignPayload of
-- internal/security/token.go.
use toolhub.Common.{
  ℕ, ◌/◌, ◌%◌, Char, String, len, Option, none, some, List, [], ◌∷◌, length, eqb, if◌then◌else◌,
}
use toolhub.Common.Decimal.{decimal}
use toolhub.Common.Text.{trim_space}
use toolhub.Bridge.Auth.{Crypto, Request, second, decode_hex, signing_bytes}
use toolhub.Files.{Bytes, utf8}

abbrev pub hex_char : ℕ → Char
hex_char d = Prim.Native.String.char_at "0123456789abcdef" d

-- hex.EncodeToString
unfoldable pub encode_hex : List ℕ → String
encode_hex [] = String.[]
encode_hex (b ∷ bs) =
    String.◌∷◌ (hex_char (b / 16)) (String.◌∷◌ (hex_char (b % 16)) (encode_hex bs))

module _ (crypto : Crypto) where
  -- security.SignPayload
  unfoldable pub sign_payload : String → String → String
  sign_payload key payload = encode_hex (crypto.hmac_sha256 key payload)

  -- SignRequest: the time in whole seconds, and the three headers.
  unfoldable pub sign_request : Request → String → ℕ → String → Request
  sign_request r key now nonce =
      let dated : Request = record r { timestamp = decimal (now / second); nonce = nonce } in
      record dated { signature = sign_payload key (signing_bytes crypto dated) }

long_key : List ℕ → Option Bytes
long_key decoded = if eqb (length decoded) 32 then some decoded else none

raw_key : String → Option Bytes
raw_key value = if eqb (len value) 32 then some (utf8 value) else none

-- ParseKey
unfoldable pub parse_key : String → Option Bytes
unfolding long_key raw_key
parse_key text =
    let value = trim_space text in
    if eqb (len value) 64
    then elim (decode_hex value) [ none ↦ raw_key value | some decoded ↦ long_key decoded ]
    else raw_key value
