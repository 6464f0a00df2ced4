-- ===== src/Bridge/Nonces.antt =====
-- internal/bridge/journal.go, AcceptNonce, and Server.authenticate of internal/bridge/server.go.
pub mod Replay
mod Tests
use toolhub.Common.{
  ℕ, ◌+◌, ◌-◌, ◌*◌, ◌/◌, String, len, Bool, true, false, Option, none, some, is_none, List, [], ◌∷◌,
  ltb, if◌then◌else◌,
}
use toolhub.Protocol.Errors.{err_replay}
use toolhub.Bridge.Bolt.{Bolt, Cell, json, corrupt}
use toolhub.Bridge.Auth.{Crypto, Request, AuthError, verify_request, second}

-- MaxRequestBytes and authWindow.
abbrev pub max_request_bytes : ℕ
max_request_bytes = 67108864

abbrev pub auth_window : ℕ
auth_window = 30 * second

pub data NonceError : Type 0 where
  replay : NonceError
  not_stored : NonceError

pub data Verdict : Type 0 where
  served too_large : Verdict
  unauthorized : AuthError → Verdict
  conflict : NonceError → Verdict

nonce_verdict : Option NonceError → Verdict
nonce_verdict none = served
nonce_verdict (some e) = conflict e

module _ (bolt : Bolt) where
  open bolt use {Bucket, get, put, delete, entries, accepts}

  -- A value that is older than the cutoff is deleted, one that does not decode is left.
  expire : ℕ → String × Cell ℕ → Bucket (Cell ℕ) → Bucket (Cell ℕ)
  expire cutoff (k, json seen_at) b = if ltb seen_at cutoff then delete k b else b
  expire cutoff (k, corrupt) b = b

  -- The cursor's loop, over the entries that the bucket has when it starts.
  sweep : ℕ → List (String × Cell ℕ) → Bucket (Cell ℕ) → Bucket (Cell ℕ)
  unfolding expire
  sweep cutoff [] b = b
  sweep cutoff (e ∷ es) b = sweep cutoff es (expire cutoff e b)

  -- Journal.AcceptNonce: the bucket after the transaction, and its error.
  pub accept_nonce : String → ℕ → ℕ → Bucket (Cell ℕ) → Bucket (Cell ℕ) × Option NonceError
  accept_nonce nonce now window b =
      if is_none (get nonce b)
      then (let swept = sweep ((now - 2 * window) / second) (entries b) b in
          if accepts nonce
          then (put nonce (json (now / second)) swept, none)
          else (b, some not_stored))
      else (b, some replay)

  -- Server.authenticate: the nonces after the request, and whether it reaches its handler.
  pub authenticate : Crypto → String → ℕ → Request → Bucket (Cell ℕ) → Bucket (Cell ℕ) × Verdict
  unfolding nonce_verdict
  authenticate crypto key now r b =
      if ltb max_request_bytes (len r.body)
      then (b, too_large)
      else elim (verify_request crypto r key now auth_window) [
        | some e ↦ (b, unauthorized e)
        | none ↦ let (b', e) = accept_nonce r.nonce now auth_window b in (b', nonce_verdict e)
      ]
