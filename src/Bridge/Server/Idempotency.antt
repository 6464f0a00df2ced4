-- ===== src/Bridge/Server/Idempotency.antt =====
-- Server.mutation on keys that have a record, and the runs of its handler.
use toolhub.Common.{
  ℕ, String, len, Bool, true, false, ◌||◌, Option, none, some, is_none, List, [], ◌∷◌, Result, ok,
  err, ltb, eqb, ◌==◌, ◌≡◌, refl, sym, subst, ◌∙◌, ap, arith, inl, inr, Bool-cases, Option-cases,
  eq_iff, if◌then◌else◌,
}
use toolhub.Bridge.Bolt.{Bolt, json, corrupt}
use toolhub.Bridge.Auth.{Request}
use toolhub.Bridge.Journal.{IdempotencyRecord, JournalError, reused, idempotency_put}
use toolhub.Bridge.Journal.Keys.{
  idempotency_put-none, idempotency_put-some, idempotency_begin-json, idempotency_begin-corrupt,
  idempotency_begin-new,
}
use toolhub.Bridge.Server.Keys.{
  key_of, is_bad_key, begun_with, mutation-bad_key, mutation-good_key, mutation-other,
}
use toolhub.Bridge.Server.{
  Wire, State, Handler, recovered_reply, answer, run_handler, encoded, resume, request_hash_of,
  mutation, operation_id_from_body,
}

module _ (bolt : Bolt) {W V : Type 0} (wire : Wire V) where
  open bolt use {Bucket, get}

  -- The state but for the idempotency records.
  abbrev SameWorld : State bolt W → State bolt W → Type 0
  SameWorld s t = (t.operations ≡ s.operations) × (t.world ≡ s.world)

  -- The key has a record.
  abbrev Known : String → State bolt W → Type 0
  Known k s = is_none (get k s.idempotency) ≡ false

  idempotency_put-Known :
      (key hash response : String) (status now : ℕ) (s : State bolt W)
      → Known key s
      → is_none
          (get key (idempotency_put bolt wire.codec key hash status response now s.idempotency).0)
        ≡ false
  idempotency_put-Known key hash response status now s h =
      elim (Option-cases
        (idempotency_put bolt wire.codec key hash status response now s.idempotency).1) [
          | inl e ↦
              rw
                ((idempotency_put-none bolt wire.codec key hash response status now s.idempotency
                  e).1)
                refl
          | inr (x, e) ↦
              rw
                (idempotency_put-some bolt wire.codec key hash response status now s.idempotency x
                  e)
                h
        ]

  recovered_reply-Known :
      (key hash : String) (now : ℕ) (s : State bolt W) (o : Option (ℕ × String))
      → Known key s
      → SameWorld s (recovered_reply bolt wire key hash now s o).0
        × Known key (recovered_reply bolt wire key hash now s o).0
  unfolding recovered_reply
  recovered_reply-Known key hash now s none h = ((refl, refl), h)
  recovered_reply-Known key hash now s (some (status, response)) h =
      ((refl, refl), idempotency_put-Known key hash response status now s h)

  resume-Known :
      (handler : Handler bolt W V) (key hash body : String) (now : ℕ) (s : State bolt W)
      (r : IdempotencyRecord) (same : Bool)
      → Known key s
      → SameWorld s
          (resume bolt wire handler key hash now body s
            (if same then ok (r, true) else err reused)).0
        × Known key
            (resume bolt wire handler key hash now body s
              (if same then ok (r, true) else err reused)).0
  unfolding resume
  resume-Known handler key hash body now s r false h = ((refl, refl), h)
  resume-Known handler key hash body now s r true h = elim (Bool-cases (eqb r.status 0)) [
    | inr e ↦ rw e ((refl, refl), h)
    | inl e ↦ rw e (recovered_reply-Known key hash now s _ h)
  ]

  answer-keeps :
      (key hash : String) (now : ℕ) (s : State bolt W) (o : ℕ × Option String)
      → Known key s
      → Known key (answer bolt wire key hash now s o).0
  unfolding answer
  answer-keeps key hash now s (status, none) h = h
  answer-keeps key hash now s (status, some response) h =
      idempotency_put-Known key hash response status now s h

  resume-keeps :
      (handler : Handler bolt W V) (key hash body : String) (now : ℕ) (s : State bolt W)
      (begun : Result JournalError (IdempotencyRecord × Bool))
      → Known key s
      → Known key (resume bolt wire handler key hash now body s begun).0
  unfolding resume run_handler
  resume-keeps handler key hash body now s (err e) h = h
  resume-keeps handler key hash body now s (ok (r, true)) h =
      (resume-Known handler key hash body now s r true h).1
  resume-keeps handler key hash body now s (ok (r, false)) h =
      answer-keeps key hash now _ (encoded wire (handler (s.operations, s.world) body).1) h

  begun-Known :
      (handler : Handler bolt W V) (now : ℕ) (q : Request) (s : State bolt W)
      → Known (key_of q) s
      → SameWorld s
          (resume bolt wire handler
            (key_of q)
            (request_hash_of wire q)
            now
            q.body
            (record s { idempotency = (begun_with bolt wire now q s).0 })
            (begun_with bolt wire now q s).1).0
        × Known
            (key_of q)
            (resume bolt wire handler
              (key_of q)
              (request_hash_of wire q)
              now
              q.body
              (record s { idempotency = (begun_with bolt wire now q s).0 })
              (begun_with bolt wire now q s).1).0
  unfolding resume
  begun-Known handler now q s h = elim (Option-cases (get (key_of q) s.idempotency)) [
    | inl e ↦ absurd (ground (arith, e, h))
    | inr (corrupt, e) ↦
        rw
          (idempotency_begin-corrupt bolt (key_of q) (request_hash_of wire q)
            (operation_id_from_body wire.codec q.body) now s.idempotency e)
          ((refl, refl), h)
    | inr (json r, e) ↦
        rw
          (idempotency_begin-json bolt (key_of q) (request_hash_of wire q)
            (operation_id_from_body wire.codec q.body) now s.idempotency r e)
          (resume-Known handler (key_of q) (request_hash_of wire q) q.body now s r
            (r.request_hash == request_hash_of wire q) h)
  ]

  -- A mutation whose key has a record does not run its handler, and the key keeps a record.
  mutation-Known_same :
      (handler : Handler bolt W V) (now : ℕ) (q : Request) (s : State bolt W)
      → Known (key_of q) s
      → SameWorld s (mutation bolt wire handler now q s).0
        × Known (key_of q) (mutation bolt wire handler now q s).0
  mutation-Known_same handler now q s h = elim (Bool-cases (is_bad_key q)) [
    | inl e ↦ rw (mutation-bad_key bolt wire handler now q s e) ((refl, refl), h)
    | inr e ↦ rw (mutation-good_key bolt wire handler now q s e) (begun-Known handler now q s h)
  ]

  mutation-Known :
      (handler : Handler bolt W V) (k : String) (now : ℕ) (q : Request) (s : State bolt W)
      → Known k s
      → Known k (mutation bolt wire handler now q s).0
  mutation-Known handler k now q s h = elim (Bool-cases (key_of q == k)) [
    | inr ne ↦ rw (mutation-other bolt wire handler k now q s ne) h
    | inl same ↦
        subst (λ j. Known j (mutation bolt wire handler now q s).0) ((eq_iff (key_of q) k).0 same)
          ((mutation-Known_same handler now q s
            (subst (λ j. Known j s) (sym ((eq_iff (key_of q) k).0 same)) h)).1)
  ]

  -- The key has a record after a mutation, if it is long enough and short enough.
  mutation-Known_after :
      (handler : Handler bolt W V) (now : ℕ) (q : Request) (s : State bolt W)
      → is_bad_key q ≡ false
      → Known (key_of q) (mutation bolt wire handler now q s).0
  mutation-Known_after handler now q s good = elim (Option-cases (get (key_of q) s.idempotency)) [
    | inr (c, e) ↦ (mutation-Known_same handler now q s (rw e refl)).1
    | inl e ↦ rw (mutation-good_key bolt wire handler now q s good) (
        resume-keeps handler (key_of q) (request_hash_of wire q) q.body now
          (record s { idempotency = (begun_with bolt wire now q s).0 })
          (begun_with bolt wire now q s).1
          (rw
            (idempotency_begin-new bolt (key_of q) (request_hash_of wire q)
              (operation_id_from_body wire.codec q.body) now s.idempotency (ground (arith, good))
              (ground (arith, good)) e)
            refl))
  ]

  -- Mutations, each with its route's handler and its time, one after the other.
  unfoldable pub mutate_all : List (Handler bolt W V × ℕ × Request) → State bolt W → State bolt W
  mutate_all [] s = s
  mutate_all ((handler, now, q) ∷ es) s = mutate_all es (mutation bolt wire handler now q s).0

  mutate_all-Known :
      (es : List (Handler bolt W V × ℕ × Request)) (k : String) (s : State bolt W)
      → Known k s
      → Known k (mutate_all es s)
  unfolding mutate_all
  mutate_all-Known [] k s h = h
  mutate_all-Known ((handler, now, q) ∷ es) k s h =
      mutate_all-Known es k (mutation bolt wire handler now q s).0
        (mutation-Known handler k now q s h)

  -- A handler runs at most once for a key: after a mutation, and whatever mutations follow, a
  -- mutation with the same key changes neither the operations nor the world.
  pub mutation-once :
      (first later : Handler bolt W V) (t u : ℕ) (q r : Request)
      (between : List (Handler bolt W V × ℕ × Request)) (s : State bolt W)
      → key_of r ≡ key_of q
      → SameWorld
          (mutate_all between (mutation bolt wire first t q s).0)
          (mutation bolt wire later u r (mutate_all between (mutation bolt wire first t q s).0)).0
  mutation-once first later t u q r between s same = elim (Bool-cases (is_bad_key q)) [
    | inl bad ↦
        rw
          (mutation-bad_key bolt wire later u r
            (mutate_all between (mutation bolt wire first t q s).0)
            (ap (λ k. ltb (len k) 8 || ltb 200 (len k)) same ∙ bad))
          (refl, refl)
    | inr good ↦
        (mutation-Known_same later u r (mutate_all between (mutation bolt wire first t q s).0) (
          subst (λ k. Known k (mutate_all between (mutation bolt wire first t q s).0)) (sym same)
            (mutate_all-Known between (key_of q) (mutation bolt wire first t q s).0
              (mutation-Known_after first t q s good)))).0
  ]
