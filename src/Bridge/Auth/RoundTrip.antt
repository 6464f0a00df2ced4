-- ===== src/Bridge/Auth/RoundTrip.antt =====
-- strconv.ParseInt after strconv.FormatInt, hex.DecodeString after hex.EncodeToString, and VerifyRequest
-- after SignRequest.
use text.Mathlib.TextLemmas.{cons-ne-nil}
use toolhub.Common.{
  ℕ, zero, suc, ◌+◌, ◌-◌, ◌*◌, ◌/◌, ◌%◌, ◌≤◌, ◌<◌, Char, code, String, len, true, false, ◌&&◌, none,
  some, List, [], ◌∷◌, All, ltb, leb, eqb, ◌==◌, eq_iff, ◌≡◌, ◌≢◌, refl, sym, ap, subst, ◌∙◌, inl,
  inr, Bool-cases, if-elim, if◌then◌else◌, arith,
}
use toolhub.Common.Decimal.{digit, digits, decimal}
use toolhub.Common.Int.{pos}
use toolhub.Bridge.Auth.{
  Crypto, Request, second, parse_digits, parse_magnitude, int_max, positive, parse_int, hex_digit,
  pair_byte, decode_hex, bytes_equal, is_outside, signing_bytes, verify_payload, verify_request,
}
use toolhub.Bridge.Auth.Sign.{hex_char, encode_hex, sign_payload, sign_request}

digit-code : (d : ℕ) → d < 10 → code (digit d) ≡ d + b'0'
digit-code zero h = refl
digit-code (suc zero) h = refl
digit-code (suc (suc zero)) h = refl
digit-code (suc (suc (suc zero))) h = refl
digit-code (suc (suc (suc (suc zero)))) h = refl
digit-code (suc (suc (suc (suc (suc zero))))) h = refl
digit-code (suc (suc (suc (suc (suc (suc zero)))))) h = refl
digit-code (suc (suc (suc (suc (suc (suc (suc zero))))))) h = refl
digit-code (suc (suc (suc (suc (suc (suc (suc (suc zero)))))))) h = refl
digit-code (suc (suc (suc (suc (suc (suc (suc (suc (suc zero))))))))) h = refl
digit-code (suc (suc (suc (suc (suc (suc (suc (suc (suc (suc d)))))))))) h = absurd (omega arith)

hex_digit-hex_char : (d : ℕ) → d < 16 → hex_digit (code (hex_char d)) ≡ some d
unfolding hex_digit
hex_digit-hex_char zero h = refl
hex_digit-hex_char (suc zero) h = refl
hex_digit-hex_char (suc (suc zero)) h = refl
hex_digit-hex_char (suc (suc (suc zero))) h = refl
hex_digit-hex_char (suc (suc (suc (suc zero)))) h = refl
hex_digit-hex_char (suc (suc (suc (suc (suc zero))))) h = refl
hex_digit-hex_char (suc (suc (suc (suc (suc (suc zero)))))) h = refl
hex_digit-hex_char (suc (suc (suc (suc (suc (suc (suc zero))))))) h = refl
hex_digit-hex_char (suc (suc (suc (suc (suc (suc (suc (suc zero)))))))) h = refl
hex_digit-hex_char (suc (suc (suc (suc (suc (suc (suc (suc (suc zero))))))))) h = refl
hex_digit-hex_char (suc (suc (suc (suc (suc (suc (suc (suc (suc (suc zero)))))))))) h = refl
hex_digit-hex_char (suc (suc (suc (suc (suc (suc (suc (suc (suc (suc (suc zero))))))))))) h = refl
hex_digit-hex_char (suc (suc (suc (suc (suc (suc (suc (suc (suc (suc (suc (suc zero)))))))))))) h =
    refl
hex_digit-hex_char
      (suc (suc (suc (suc (suc (suc (suc (suc (suc (suc (suc (suc (suc zero))))))))))))) h =
    refl
hex_digit-hex_char
      (suc (suc (suc (suc (suc (suc (suc (suc (suc (suc (suc (suc (suc (suc zero)))))))))))))) h =
    refl
hex_digit-hex_char
      (suc (suc (suc (suc (suc (suc (suc (suc (suc (suc (suc (suc (suc (suc (suc zero)))))))))))))))
      h =
    refl
hex_digit-hex_char
      (suc
        (suc (suc (suc (suc (suc (suc (suc (suc (suc (suc (suc (suc (suc (suc (suc d))))))))))))))))
      h =
    absurd (omega arith)

-- Bytes are read back from their hexadecimal print.
decode_hex-encode_hex : (bs : List ℕ) → All (λ b. b < 256) bs → decode_hex (encode_hex bs) ≡ some bs
unfolding decode_hex encode_hex pair_byte
decode_hex-encode_hex [] h = refl
decode_hex-encode_hex (b ∷ bs) (h, hs) =
    let high = hex_digit-hex_char (b / 16) (omega arith) in
    let low = hex_digit-hex_char (b % 16) (omega arith) in
    let byte : b / 16 * 16 + b % 16 ≡ b = omega arith in
    rw (high, low, decode_hex-encode_hex bs hs, byte) refl

-- One digit read.
parse_digits-digit :
    (acc d : ℕ) (s : String)
    → d < 10
    → parse_digits acc (String.◌∷◌ (digit d) s) ≡ parse_digits (acc * 10 + d) s
unfolding parse_digits
parse_digits-digit acc d s h =
    let coded = digit-code d h in
    let value : code (digit d) - b'0' ≡ d = omega (arith, coded) in
    let fits : (leb b'0' (code (digit d)) && leb (code (digit d)) b'9') ≡ true =
      ground (arith, coded, h) in
    rw (fits, value) refl

-- One round of the printing.
digits_step :
    (fuel n : ℕ) (out : String)
    → digits (suc fuel) n out ≡ (
        if ltb n 10
        then String.◌∷◌ (digit n) out
        else digits fuel (n / 10) (String.◌∷◌ (digit (n % 10)) out))
unfolding digits
digits_step fuel n out = ground arith

parse_digits-digits :
    (fuel n : ℕ) (out : String) → n < fuel → parse_digits 0 (digits fuel n out) ≡ parse_digits n out
parse_digits-digits zero n out h = absurd (omega arith)
parse_digits-digits (suc fuel) n out h =
    ap (parse_digits 0) (digits_step fuel n out)
    ∙ if-elim (λ t. parse_digits 0 t ≡ parse_digits n out) (ltb n 10)
        (λ e.
          let start : 0 * 10 + n ≡ n = omega arith in
          parse_digits-digit 0 n out (ground (arith, e)) ∙ ap (λ m. parse_digits m out) start)
        λ e.
          let tens : n / 10 * 10 + n % 10 ≡ n = omega arith in
          parse_digits-digits fuel (n / 10) (String.◌∷◌ (digit (n % 10)) out) (ground (arith, e, h))
          ∙ (parse_digits-digit (n / 10) (n % 10) out (omega arith)
              ∙ ap (λ m. parse_digits m out) tens)

-- A number begins with a digit.
abbrev Begins : String → Type 0
Begins s = (c : Char) × (t : String) × (s ≡ String.◌∷◌ c t) × (b'0' ≤ code c) × (code c ≤ b'9')

Begins-digit : (d : ℕ) (s : String) → d < 10 → Begins (String.◌∷◌ (digit d) s)
Begins-digit d s h =
    let coded = digit-code d h in (digit d, s, refl, omega (arith, coded), omega (arith, coded, h))

digits-Begins : (fuel n : ℕ) (out : String) → n < fuel → Begins (digits fuel n out)
digits-Begins zero n out h = absurd (omega arith)
digits-Begins (suc fuel) n out h = subst Begins (sym (digits_step fuel n out)) (
    if-elim Begins (ltb n 10) (λ e. Begins-digit n out (ground (arith, e)))
      λ e. digits-Begins fuel (n / 10) (String.◌∷◌ (digit (n % 10)) out) (ground (arith, e, h)))

parse_int-digit :
    (c : Char) (s : String) (n : ℕ)
    → b'0' ≤ code c
    → code c ≤ b'9'
    → parse_digits 0 (String.◌∷◌ c s) ≡ some n
    → n ≤ int_max
    → parse_int (String.◌∷◌ c s) ≡ some (pos n)
unfolding parse_int parse_magnitude positive
parse_int-digit c s n low high h fits =
    let minus : eqb (code c) b'-' ≡ false = ground (arith, low) in
    let plus : eqb (code c) b'+' ≡ false = ground (arith, low) in
    let there : (String.◌∷◌ c s == "") ≡ false =
      ground (arith, eq_iff (String.◌∷◌ c s) "", cons-ne-nil c s) in
    let within : leb n int_max ≡ true = ground (arith, fits) in
    rw (minus, plus, there) (ap positive h ∙ rw within refl)

-- A number of an int64 that is not negative is read back from its print.
parse_int-decimal : (n : ℕ) → n ≤ int_max → parse_int (decimal n) ≡ some (pos n)
unfolding decimal parse_digits
parse_int-decimal n fits =
    let read : parse_digits 0 (decimal n) ≡ some n =
      parse_digits-digits (suc n) n String.[] (omega arith) in
    let (c, t, same, low, high) = digits-Begins (suc n) n String.[] (omega arith) in
    ap parse_int same ∙ parse_int-digit c t n low high (ap (parse_digits 0) (sym same) ∙ read) fits

bytes_equal_refl : (bs : List ℕ) → bytes_equal bs bs ≡ true
unfolding bytes_equal
bytes_equal_refl [] = refl
bytes_equal_refl (b ∷ bs) = ground (arith, bytes_equal_refl bs)

encode_hex-ne-nil : (bs : List ℕ) → bs ≢ [] → (encode_hex bs == "") ≡ false
unfolding encode_hex
encode_hex-ne-nil [] h = absurd (h refl)
encode_hex-ne-nil (b ∷ bs) h =
    let rest = String.◌∷◌ (hex_char (b % 16)) (encode_hex bs) in
    ground
      (arith, eq_iff (String.◌∷◌ (hex_char (b / 16)) rest) "", cons-ne-nil (hex_char (b / 16)) rest)

decimal-ne-nil : (n : ℕ) → (decimal n == "") ≡ false
unfolding decimal
decimal-ne-nil n =
    let (c, t, same, low, high) = digits-Begins (suc n) n String.[] (omega arith) in
    ground (arith, eq_iff (digits (suc n) n String.[]) "", cons-ne-nil c t, same)

-- A text that is not empty.
len-ne-nil : (s : String) → 16 ≤ len s → (s == "") ≡ false
len-ne-nil s h = elim (Bool-cases (s == "")) [
  | inl e ↦ let empty : len s ≡ 0 = ap len ((eq_iff s "").0 e) in absurd (omega (arith, h, empty))
  | inr e ↦ e
]

-- What HMAC-SHA-256 gives: bytes, and some of them.
abbrev pub IsDigest : List ℕ → Type 0
IsDigest bs = (bs ≢ []) × All (λ b. b < 256) bs

module _ (crypto : Crypto) where
  verify_payload-decode_hex :
      (key payload signature : String) {bs : List ℕ}
      → decode_hex signature ≡ some bs
      → verify_payload crypto key payload signature
        ≡ bytes_equal (crypto.hmac_sha256 key payload) bs
  unfolding verify_payload
  verify_payload-decode_hex key payload signature h = ground (arith, h)

  verify_payload-sign_payload :
      (key payload : String)
      → All (λ b. b < 256) (crypto.hmac_sha256 key payload)
      → verify_payload crypto key payload (sign_payload crypto key payload) ≡ true
  unfolding sign_payload
  verify_payload-sign_payload key payload h =
      let mac = crypto.hmac_sha256 key payload in
      verify_payload-decode_hex key payload (encode_hex mac) (decode_hex-encode_hex mac h)
      ∙ bytes_equal_refl mac

  -- A request of which every check passes.
  verify_request-passes :
      (r : Request) (key : String) (now skew seconds : ℕ)
      → (r.timestamp == "") ≡ false
      → (r.signature == "") ≡ false
      → parse_int r.timestamp ≡ some (pos seconds)
      → is_outside now skew (pos seconds) ≡ false
      → 16 ≤ len r.nonce
      → len r.nonce ≤ 128
      → verify_payload crypto key (signing_bytes crypto r) r.signature ≡ true
      → verify_request crypto r key now skew ≡ none
  unfolding verify_request
  verify_request-passes r key now skew seconds dated signed read fresh long short genuine =
      ground (arith, dated, signed, read, fresh, long, short, genuine, len-ne-nil r.nonce long)

  -- The Bridge accepts a request that is signed with its key, where HMAC-SHA-256 gives bytes, the nonce has
  -- 16 to 128 bytes, the seconds of the signing clock fit an int64, and the Bridge's clock is at most the
  -- skew away from them.
  pub verify_request-sign_request :
      (r : Request) (key nonce : String) (signed now skew : ℕ)
      → ((payload : String) → IsDigest (crypto.hmac_sha256 key payload))
      → 16 ≤ len nonce
      → len nonce ≤ 128
      → signed / second ≤ int_max
      → signed / second * second ≤ now + skew
      → now ≤ signed / second * second + skew
      → verify_request crypto (sign_request crypto r key signed nonce) key now skew ≡ none
  unfolding sign_request sign_payload is_outside signing_bytes
  verify_request-sign_request r key nonce signed now skew digest long short fits late early =
      let seconds = signed / second in
      let dated : Request = record r { timestamp = decimal seconds; nonce = nonce } in
      let payload = signing_bytes crypto dated in
      let (some_bytes, bytes) = digest payload in
      verify_request-passes (sign_request crypto r key signed nonce) key now skew seconds
        (decimal-ne-nil seconds) (encode_hex-ne-nil (crypto.hmac_sha256 key payload) some_bytes)
        (parse_int-decimal seconds fits) (ground (arith, late, early)) long short
        (verify_payload-sign_payload key payload bytes)
