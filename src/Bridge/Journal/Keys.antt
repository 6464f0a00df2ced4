-- ===== src/Bridge/Journal/Keys.antt =====
-- What the idempotency records of a key go through.
use toolhub.Common.{
  ℕ, ◌≤◌, String, len, true, false, none, some, ok, err, ltb, ◌==◌, ◌≡◌, refl, sym, ◌∙◌, arith, inl,
  inr, Bool-cases, Option-cases, eq_iff, if◌then◌else◌,
}
use toolhub.Bridge.Bolt.{Bolt, Cell, json, corrupt}
use toolhub.Bridge.Operation.Encode.{Codec, contains_sensitive_json}
use toolhub.Bridge.Journal.{
  IdempotencyRecord, JournalError, reused, malformed, idempotency_begin, idempotency_put,
}

module _ (bolt : Bolt) where
  open bolt use {Bucket, get, put, accepts, get-put, accepts-len}

  get-put_other :
      (k j : String) (v : Cell IdempotencyRecord) (b : Bucket (Cell IdempotencyRecord))
      → (k == j) ≡ false
      → get j (put k v b) ≡ get j b
  get-put_other k j v b h = get-put k j v b ∙ (rw h refl)

  get-put_same :
      (k : String) (v : Cell IdempotencyRecord) (b : Bucket (Cell IdempotencyRecord))
      → get k (put k v b) ≡ some v
  get-put_same k v b = get-put k k v b ∙ (ground (arith, eq_iff k k))

  pub idempotency_put-other :
      (codec : Codec) (k key hash response : String) (status now : ℕ)
      (b : Bucket (Cell IdempotencyRecord))
      → (key == k) ≡ false
      → get k (idempotency_put bolt codec key hash status response now b).0 ≡ get k b
  unfolding idempotency_put
  idempotency_put-other codec k key hash response status now b h =
      elim (Bool-cases (ltb 2097152 (len response))) [
        | inl e ↦ rw e refl
        | inr e ↦ elim (Bool-cases (contains_sensitive_json codec response)) [
          | inl f ↦ rw (e, f) refl
          | inr f ↦ elim (Bool-cases (accepts key)) [
            | inr g ↦ rw (e, f, g) refl
            | inl g ↦ rw (e, f, g) (get-put_other key k _ b h)
          ]
        ]
      ]

  pub idempotency_begin-other :
      (k key hash op : String) (now : ℕ) (b : Bucket (Cell IdempotencyRecord))
      → (key == k) ≡ false
      → get k (idempotency_begin bolt key hash op now b).0 ≡ get k b
  unfolding idempotency_begin
  idempotency_begin-other k key hash op now b h = elim (Option-cases (get key b)) [
    | inr (json r, e) ↦ rw (e, idempotency_begin) refl
    | inr (corrupt, e) ↦ rw (e, idempotency_begin) refl
    | inl e ↦ elim (Bool-cases (accepts key)) [
      | inr g ↦ rw (e, g, idempotency_begin) refl
      | inl g ↦ rw (e, g, idempotency_begin) (get-put_other key k _ b h)
    ]
  ]

  -- A response is only kept with the hash of its request, and not if it is sensitive.
  pub idempotency_put-none :
      (codec : Codec) (key hash response : String) (status now : ℕ)
      (b : Bucket (Cell IdempotencyRecord))
      → (idempotency_put bolt codec key hash status response now b).1 ≡ none
      → (contains_sensitive_json codec response ≡ false)
        × (get key (idempotency_put bolt codec key hash status response now b).0
            ≡ some (
                json (record {
                  request_hash = hash;
                  operation_id = "";
                  status = status;
                  response = response;
                  created_at = now;
                })))
  unfolding idempotency_put
  idempotency_put-none codec key hash response status now b h =
      elim (Bool-cases (ltb 2097152 (len response))) [
        | inl e ↦ absurd (ground (arith, e, h))
        | inr e ↦ elim (Bool-cases (contains_sensitive_json codec response)) [
          | inl f ↦ absurd (ground (arith, e, f, h))
          | inr f ↦ elim (Bool-cases (accepts key)) [
            | inr g ↦ absurd (ground (arith, e, f, g, h))
            | inl g ↦ (f, rw (e, f, g) (get-put_same key _ b))
          ]
        ]
      ]

  pub idempotency_put-some :
      (codec : Codec) (key hash response : String) (status now : ℕ)
      (b : Bucket (Cell IdempotencyRecord)) (x : JournalError)
      → (idempotency_put bolt codec key hash status response now b).1 ≡ some x
      → (idempotency_put bolt codec key hash status response now b).0 ≡ b
  unfolding idempotency_put
  idempotency_put-some codec key hash response status now b x h =
      elim (Bool-cases (ltb 2097152 (len response))) [
        | inl e ↦ rw e refl
        | inr e ↦ elim (Bool-cases (contains_sensitive_json codec response)) [
          | inl f ↦ rw (e, f) refl
          | inr f ↦ elim (Bool-cases (accepts key)) [
            | inr g ↦ rw (e, f, g) refl
            | inl g ↦ absurd (ground (arith, e, f, g, h))
          ]
        ]
      ]

  -- A key that is stored stays as it is.
  pub idempotency_begin-json :
      (key hash op : String) (now : ℕ) (b : Bucket (Cell IdempotencyRecord)) (r : IdempotencyRecord)
      → get key b ≡ some (json r)
      → idempotency_begin bolt key hash op now b
        ≡ (b, if r.request_hash == hash then ok (r, true) else err reused)
  unfolding idempotency_begin
  idempotency_begin-json key hash op now b r h = rw (h, idempotency_begin) refl

  pub idempotency_begin-corrupt :
      (key hash op : String) (now : ℕ) (b : Bucket (Cell IdempotencyRecord))
      → get key b ≡ some corrupt
      → idempotency_begin bolt key hash op now b ≡ (b, err malformed)
  unfolding idempotency_begin
  idempotency_begin-corrupt key hash op now b h = rw (h, idempotency_begin) refl

  -- A key that is not stored is stored, for the request that it comes with.
  pub idempotency_begin-new :
      (key hash op : String) (now : ℕ) (b : Bucket (Cell IdempotencyRecord))
      → 1 ≤ len key
      → len key ≤ 32768
      → get key b ≡ none
      → get key (idempotency_begin bolt key hash op now b).0
        ≡ some (
            json (record {
              request_hash = hash;
              operation_id = op;
              status = 0;
              response = "null";
              created_at = now;
            }))
  unfolding idempotency_begin
  idempotency_begin-new key hash op now b l u h =
      rw (h, accepts-len key l u, idempotency_begin) (get-put_same key _ b)

  -- The record that is found is the one that is stored, and it is for this request.
  pub idempotency_begin-true :
      (key hash op : String) (now : ℕ) (b : Bucket (Cell IdempotencyRecord)) (r : IdempotencyRecord)
      → (idempotency_begin bolt key hash op now b).1 ≡ ok (r, true)
      → (get key (idempotency_begin bolt key hash op now b).0 ≡ some (json r))
        × (r.request_hash ≡ hash)
  unfolding idempotency_begin
  idempotency_begin-true key hash op now b r h = elim (Option-cases (get key b)) [
    | inl e ↦ elim (Bool-cases (accepts key)) [
      | inl g ↦ absurd (ground (arith, e, g, h))
      | inr g ↦ absurd (ground (arith, e, g, h))
    ]
    | inr (corrupt, e) ↦ absurd (ground (arith, e, h))
    | inr (json x, e) ↦ elim (Bool-cases (x.request_hash == hash)) [
      | inr ne ↦ absurd (ground (arith, e, ne, h))
      | inl same ↦
          let x≡r : x ≡ r = ground (arith, e, same, h) in
          rw (sym x≡r, e, idempotency_begin) (e, (eq_iff x.request_hash hash).0 same)
    ]
  ]
