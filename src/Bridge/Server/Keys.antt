-- ===== src/Bridge/Server/Keys.antt =====
-- The key that a mutation is served under, and the keys that it leaves alone.
use toolhub.Common.{
  ℕ, String, len, Bool, true, false, ◌||◌, Option, none, some, Result, ok, err, ltb, eqb, ◌==◌, ◌≡◌,
  refl, ◌∙◌, inl, inr, Bool-cases,
}
use toolhub.Common.Text.{trim_space}
use toolhub.Bridge.Bolt.{Bolt, Cell}
use toolhub.Bridge.Auth.{Request}
use toolhub.Bridge.Journal.{IdempotencyRecord, JournalError, idempotency_begin}
use toolhub.Bridge.Journal.Keys.{idempotency_put-other, idempotency_begin-other}
use toolhub.Bridge.Server.{
  Wire, State, failed, Handler, recovered_reply, answer, run_handler, encoded, resume,
  request_hash_of, mutation, operation_id_from_body, invalid,
}

-- The key that a request is served under.
unfoldable pub key_of : Request → String
key_of q = trim_space q.idempotency_key

-- Whether a key is too short or too long.
abbrev pub is_bad_key : Request → Bool
is_bad_key q = ltb (len (key_of q)) 8 || ltb 200 (len (key_of q))

module _ (bolt : Bolt) {W V : Type 0} (wire : Wire V) where
  open bolt use {Bucket, get}

  recovered_reply-other :
      (k key hash : String) (now : ℕ) (s : State bolt W) (o : Option (ℕ × String))
      → (key == k) ≡ false
      → get k (recovered_reply bolt wire key hash now s o).0.idempotency ≡ get k s.idempotency
  unfolding recovered_reply
  recovered_reply-other k key hash now s none h = refl
  recovered_reply-other k key hash now s (some (status, response)) h =
      idempotency_put-other bolt wire.codec k key hash response status now s.idempotency h

  answer-other :
      (k key hash : String) (now : ℕ) (s : State bolt W) (o : ℕ × Option String)
      → (key == k) ≡ false
      → get k (answer bolt wire key hash now s o).0.idempotency ≡ get k s.idempotency
  unfolding answer
  answer-other k key hash now s (status, none) h = refl
  answer-other k key hash now s (status, some response) h =
      idempotency_put-other bolt wire.codec k key hash response status now s.idempotency h

  resume-other :
      (handler : Handler bolt W V) (k key hash body : String) (now : ℕ) (s : State bolt W)
      (begun : Result JournalError (IdempotencyRecord × Bool))
      → (key == k) ≡ false
      → get k (resume bolt wire handler key hash now body s begun).0.idempotency
        ≡ get k s.idempotency
  unfolding resume run_handler
  resume-other handler k key hash body now s (err e) h = refl
  resume-other handler k key hash body now s (ok (r, false)) h =
      answer-other k key hash now _ (encoded wire (handler (s.operations, s.world) body).1) h
  resume-other handler k key hash body now s (ok (r, true)) h = elim (Bool-cases (eqb r.status 0)) [
    | inr e ↦ rw e refl
    | inl e ↦ rw e (recovered_reply-other k key hash now s _ h)
  ]

  -- What IdempotencyBegin makes of a request.
  abbrev pub begun_with :
      ℕ
      → Request
      → State bolt W
      → Bucket (Cell IdempotencyRecord) × Result JournalError (IdempotencyRecord × Bool)
  begun_with now q s =
      idempotency_begin bolt (key_of q) (request_hash_of wire q)
        (operation_id_from_body wire.codec q.body) now s.idempotency

  pub mutation-bad_key :
      (handler : Handler bolt W V) (now : ℕ) (q : Request) (s : State bolt W)
      → is_bad_key q ≡ true
      → mutation bolt wire handler now q s
        ≡ (s, failed 400 (invalid "Mutation requires an Idempotency-Key of 8-200 characters"))
  unfolding mutation key_of
  mutation-bad_key handler now q s h = rw h refl

  pub mutation-good_key :
      (handler : Handler bolt W V) (now : ℕ) (q : Request) (s : State bolt W)
      → is_bad_key q ≡ false
      → mutation bolt wire handler now q s
        ≡ resume bolt wire handler
            (key_of q)
            (request_hash_of wire q)
            now
            q.body
            (record s { idempotency = (begun_with now q s).0 })
            (begun_with now q s).1
  unfolding mutation key_of
  mutation-good_key handler now q s h = rw h refl

  -- A mutation touches no other key.
  pub mutation-other :
      (handler : Handler bolt W V) (k : String) (now : ℕ) (q : Request) (s : State bolt W)
      → (key_of q == k) ≡ false
      → get k (mutation bolt wire handler now q s).0.idempotency ≡ get k s.idempotency
  mutation-other handler k now q s h = elim (Bool-cases (is_bad_key q)) [
    | inl e ↦ rw (mutation-bad_key handler now q s e) refl
    | inr e ↦ rw (mutation-good_key handler now q s e) (
        resume-other handler k (key_of q) (request_hash_of wire q) q.body now
          (record s { idempotency = (begun_with now q s).0 }) (begun_with now q s).1 h
        ∙ idempotency_begin-other bolt k (key_of q) (request_hash_of wire q)
            (operation_id_from_body wire.codec q.body) now s.idempotency h)
  ]
