-- ===== src/Bridge/Server/Answers.antt =====
-- Server.mutation on keys that have an answer.
use toolhub.Common.{
  ℕ, String, len, ltb, ◌||◌, Bool, true, false, Option, none, some, List, [], ◌∷◌, Result, ok, err,
  eqb, ◌==◌, ◌≡◌, ◌≢◌, refl, sym, subst, ◌∙◌, ap, arith, inl, inr, Bool-cases, eq_iff,
  if◌then◌else◌,
}
use toolhub.Bridge.Bolt.{Bolt, json}
use toolhub.Bridge.Auth.{Request}
use toolhub.Protocol.Errors.{ApiError}
use toolhub.Bridge.Journal.{IdempotencyRecord, JournalError, reused, journal_error, idempotency_put}
use toolhub.Bridge.Journal.Keys.{
  idempotency_put-none, idempotency_begin-json, idempotency_begin-true,
}
use toolhub.Bridge.Server.{
  Wire, State, failed, raw, Handler, persisted, recovered_reply, answer, run_handler, encoded,
  resume, request_hash_of, mutation, operation_id_from_body, to_api_error,
}
use toolhub.Bridge.Server.Keys.{
  key_of, is_bad_key, begun_with, mutation-bad_key, mutation-good_key, mutation-other,
}
use toolhub.Bridge.Server.Idempotency.{mutate_all}

persisted-raw :
    (status n : ℕ) (response m : String) (e : ApiError) (o : Option JournalError)
    → persisted status response e o ≡ raw n m
    → (o ≡ none) × (status ≡ n) × (response ≡ m)
unfolding persisted
persisted-raw status n response m e none h = (refl, ground (arith, h), ground (arith, h))
persisted-raw status n response m e (some x) h = absurd (ground (arith, h))

module _ (bolt : Bolt) {W V : Type 0} (wire : Wire V) where
  open bolt use {Bucket, get}

  -- The journal has an answer to the requests with the key and the hash.
  pub record Answered (key hash : String) (status : ℕ) (response : String) (s : State bolt W)
      : Type 0 where
    pub kept : IdempotencyRecord
    pub stored : get key s.idempotency ≡ some (json kept)
    pub same_hash : kept.request_hash ≡ hash
    pub same_status : kept.status ≡ status
    pub same_response : kept.response ≡ response

  resume-kept :
      (handler : Handler bolt W V) (key hash body : String) (now : ℕ) (s : State bolt W)
      (r : IdempotencyRecord) (same : Bool)
      → r.status ≢ 0
      → resume bolt wire handler key hash now body s (if same then ok (r, true) else err reused) ≡ (
        s,
        if same then raw r.status r.response else failed 409 (to_api_error (journal_error reused)),
      )
  unfolding resume
  resume-kept handler key hash body now s r false nz = refl
  resume-kept handler key hash body now s r true nz = elim (Bool-cases (eqb r.status 0)) [
    | inl e ↦ absurd (nz (ground (arith, e)))
    | inr e ↦ rw e refl
  ]

  -- What a mutation says to a key that has an answer: nothing changes.
  mutation-Answered_reply :
      (handler : Handler bolt W V) (now : ℕ) (q : Request) (hash response : String) (status : ℕ)
      (s : State bolt W)
      → is_bad_key q ≡ false
      → status ≢ 0
      → Answered (key_of q) hash status response s
      → mutation bolt wire handler now q s ≡ (
        s,
        if hash == request_hash_of wire q
            then raw status response
            else failed 409 (to_api_error (journal_error reused)),
      )
  mutation-Answered_reply handler now q hash response status s good nz a =
      mutation-good_key bolt wire handler now q s good
      ∙ (rw
          (idempotency_begin-json bolt (key_of q) (request_hash_of wire q)
            (operation_id_from_body wire.codec q.body) now s.idempotency a.kept a.stored)
          (resume-kept handler (key_of q) (request_hash_of wire q) q.body now s a.kept
              (a.kept.request_hash == request_hash_of wire q) (λ e. nz (sym a.same_status ∙ e))
            ∙ (rw (a.same_hash, a.same_status, a.same_response) refl)))

  mutation-Answered :
      (handler : Handler bolt W V) (now : ℕ) (q : Request) (key hash response : String) (status : ℕ)
      (s : State bolt W)
      → status ≢ 0
      → Answered key hash status response s
      → Answered key hash status response (mutation bolt wire handler now q s).0
  mutation-Answered handler now q key hash response status s nz a =
      elim (Bool-cases (is_bad_key q)) [
        | inl bad ↦ rw (mutation-bad_key bolt wire handler now q s bad) a
        | inr good ↦ elim (Bool-cases (key_of q == key)) [
          | inr ne ↦ record {
            kept = a.kept;
            stored = mutation-other bolt wire handler key now q s ne ∙ a.stored;
            same_hash = a.same_hash;
            same_status = a.same_status;
            same_response = a.same_response;
          }
          | inl e ↦
              rw
                (mutation-Answered_reply handler now q hash response status s good nz (
                  subst (λ k. Answered k hash status response s) (sym ((eq_iff (key_of q) key).0 e))
                    a))
                a
        ]
      ]

  mutate_all-Answered :
      (es : List (Handler bolt W V × ℕ × Request)) (key hash response : String) (status : ℕ)
      (s : State bolt W)
      → status ≢ 0
      → Answered key hash status response s
      → Answered key hash status response (mutate_all bolt wire es s)
  unfolding mutate_all
  mutate_all-Answered [] key hash response status s nz a = a
  mutate_all-Answered ((handler, now, q) ∷ es) key hash response status s nz a =
      mutate_all-Answered es key hash response status (mutation bolt wire handler now q s).0 nz
        (mutation-Answered handler now q key hash response status s nz a)

  put-Answered :
      (key hash m response : String) (n now status : ℕ) (s : State bolt W) (e : ApiError)
      → persisted n m e (idempotency_put bolt wire.codec key hash n m now s.idempotency).1
        ≡ raw status response
      → Answered key hash status response (record s {
        idempotency = (idempotency_put bolt wire.codec key hash n m now s.idempotency).0;
      })
  put-Answered key hash m response n now status s e h =
      let (stored, same, text) =
        persisted-raw n status m response e
          (idempotency_put bolt wire.codec key hash n m now s.idempotency).1 h in
      record {
        kept = _;
        stored = (idempotency_put-none bolt wire.codec key hash m n now s.idempotency stored).1;
        same_hash = refl;
        same_status = same;
        same_response = text;
      }

  recovered_reply-raw :
      (key hash response : String) (now status : ℕ) (s : State bolt W) (o : Option (ℕ × String))
      → (recovered_reply bolt wire key hash now s o).1 ≡ raw status response
      → Answered key hash status response (recovered_reply bolt wire key hash now s o).0
  unfolding recovered_reply
  recovered_reply-raw key hash response now status s none h = absurd (ground (arith, h))
  recovered_reply-raw key hash response now status s (some (n, m)) h =
      put-Answered key hash m response n now status s _ h

  answer-raw :
      (key hash response : String) (now status : ℕ) (s : State bolt W) (o : ℕ × Option String)
      → (answer bolt wire key hash now s o).1 ≡ raw status response
      → Answered key hash status response (answer bolt wire key hash now s o).0
  unfolding answer
  answer-raw key hash response now status s (n, none) h = absurd (ground (arith, h))
  answer-raw key hash response now status s (n, some m) h =
      put-Answered key hash m response n now status s _ h

  resume-raw :
      (handler : Handler bolt W V) (key hash body response : String) (now status : ℕ)
      (s : State bolt W) (begun : Result JournalError (IdempotencyRecord × Bool))
      → ((r : IdempotencyRecord)
          → begun ≡ ok (r, true)
          → (get key s.idempotency ≡ some (json r)) × (r.request_hash ≡ hash))
      → (resume bolt wire handler key hash now body s begun).1 ≡ raw status response
      → Answered key hash status response (resume bolt wire handler key hash now body s begun).0
  unfolding resume run_handler
  resume-raw handler key hash body response now status s (err e) k h = absurd (ground (arith, h))
  resume-raw handler key hash body response now status s (ok (r, false)) k h =
      answer-raw key hash response now status _
        (encoded wire (handler (s.operations, s.world) body).1) h
  resume-raw handler key hash body response now status s (ok (r, true)) k h =
      elim (Bool-cases (eqb r.status 0)) [
        | inl e ↦ rw e (recovered_reply-raw key hash response now status s _ (rw e at h))
        | inr e ↦ rw e record {
          kept = r;
          stored = (k r refl).0;
          same_hash = (k r refl).1;
          same_status = ground (arith, e, h);
          same_response = ground (arith, e, h);
        }
      ]

  -- A response that was written is in the journal.
  mutation-raw :
      (handler : Handler bolt W V) (now : ℕ) (q : Request) (response : String) (status : ℕ)
      (s : State bolt W)
      → (mutation bolt wire handler now q s).1 ≡ raw status response
      → (is_bad_key q ≡ false)
        × Answered
            (key_of q)
            (request_hash_of wire q)
            status
            response
            (mutation bolt wire handler now q s).0
  mutation-raw handler now q response status s h = elim (Bool-cases (is_bad_key q)) [
    | inl bad ↦ absurd (ground (arith, mutation-bad_key bolt wire handler now q s bad, h))
    | inr good ↦
        let step = mutation-good_key bolt wire handler now q s good in
        (
          good,
          rw step (
              resume-raw handler (key_of q) (request_hash_of wire q) q.body response now status
                (record s { idempotency = (begun_with bolt wire now q s).0 })
                (begun_with bolt wire now q s).1
                (λ r e.
                  idempotency_begin-true bolt (key_of q) (request_hash_of wire q)
                    (operation_id_from_body wire.codec q.body) now s.idempotency r e)
                (sym (ap (λ p. p.1) step) ∙ h)),
        )
  ]

  -- A response that was written for a key is the answer to every later mutation with the key,
  -- whatever mutations come between: the same bytes if it is the same request, a conflict if it is
  -- another. Neither changes anything. A handler's own response must not have the status 0.
  pub mutation-answer :
      (first later : Handler bolt W V) (t u status : ℕ) (response : String) (q r : Request)
      (between : List (Handler bolt W V × ℕ × Request)) (s : State bolt W)
      → status ≢ 0
      → key_of r ≡ key_of q
      → (mutation bolt wire first t q s).1 ≡ raw status response
      → mutation bolt wire later u r
          (mutate_all bolt wire between (mutation bolt wire first t q s).0)
        ≡ (
          mutate_all bolt wire between (mutation bolt wire first t q s).0,
          if request_hash_of wire q == request_hash_of wire r
              then raw status response
              else failed 409 (to_api_error (journal_error reused)),
        )
  mutation-answer first later t u status response q r between s nz same h =
      let (good, a) = mutation-raw first t q response status s h in
      mutation-Answered_reply later u r (request_hash_of wire q) response status
        (mutate_all bolt wire between (mutation bolt wire first t q s).0)
        (ap (λ k. ltb (len k) 8 || ltb 200 (len k)) same ∙ good) nz
        (subst
          (λ k.
            Answered k (request_hash_of wire q) status response
              (mutate_all bolt wire between (mutation bolt wire first t q s).0))
          (sym same)
          (mutate_all-Answered between (key_of q) (request_hash_of wire q) response status
            (mutation bolt wire first t q s).0 nz a))
