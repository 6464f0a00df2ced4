-- ===== src/Bridge/Nonces/Replay.antt =====
-- Server.authenticate and AcceptNonce on requests that come again.
use toolhub.Common.{
  ℕ, ◌+◌, ◌-◌, ◌*◌, ◌/◌, ◌≤◌, String, len, false, ◌||◌, All, none, some, List, [], ◌∷◌, ltb, ◌==◌,
  ◌≡◌, ◌≢◌, sym, ◌∙◌, ap, arith, inl, inr, Bool-cases, Option-cases, eq_iff,
}
use toolhub.Common.Int.{ℤ, pos, negsuc}
use toolhub.Bridge.Bolt.{Bolt, Cell, json, corrupt}
use toolhub.Bridge.Bolt.Entries.{Agrees, entries-Agrees}
use toolhub.Bridge.Auth.{Crypto, Request, verify_request, is_outside, parse_int, second}
use toolhub.Bridge.Nonces.{
  served, sweep, accept_nonce, nonce_verdict, authenticate, auth_window, max_request_bytes,
}

-- A clock that passes the test of the timestamp is within the skew on both sides.
is_outside_lem :
    (s t w : ℕ) (z : ℤ) → is_outside s w z ≡ false → is_outside t w z ≡ false → t ≤ s + 2 * w
unfolding is_outside
is_outside_lem s t w (pos n) h k = ground arith
is_outside_lem s t w (negsuc n) h k = ground arith

sweep_cutoff :
    (now limit seen : ℕ)
    → now ≤ limit
    → (limit - 2 * auth_window) / second ≤ seen
    → (now - 2 * auth_window) / second ≤ seen
sweep_cutoff now limit seen h k = omega (arith, h, k)

fresh_again : (s t : ℕ) → t ≤ s + 2 * auth_window → (t - 2 * auth_window) / second ≤ s / second
fresh_again s t h = omega (arith, h)

-- A request that verifies has a timestamp that parses and is near the clock.
verify_request-none :
    (crypto : Crypto) (q : Request) (key : String) (now w : ℕ)
    → verify_request crypto q key now w ≡ none
    → (z : ℤ) × (parse_int q.timestamp ≡ some z) × (is_outside now w z ≡ false)
unfolding verify_request
verify_request-none crypto q key now w h =
    elim (Bool-cases (q.timestamp == "" || q.nonce == "" || q.signature == "")) [
      | inl e ↦ absurd (ground (arith, e, h))
      | inr e ↦ elim (Option-cases (parse_int q.timestamp)) [
        | inl p ↦ absurd (ground (arith, e, p, h))
        | inr (z, p) ↦ elim (Bool-cases (is_outside now w z)) [
          | inl o ↦ absurd (ground (arith, e, p, o, h))
          | inr o ↦ (z, p, o)
        ]
      ]
    ]

module _ (bolt : Bolt) where
  open bolt use {Bucket, get, put, delete, entries, accepts, get-put, get-delete}

  -- A nonce that is not older than the cutoff survives the sweep.
  sweep-get :
      (cutoff seen : ℕ) (n : String) (es : List (String × Cell ℕ)) (b : Bucket (Cell ℕ))
      → cutoff ≤ seen
      → Agrees n (json seen) es
      → get n b ≡ some (json seen)
      → get n (sweep bolt cutoff es b) ≡ some (json seen)
  unfolding sweep
  sweep-get cutoff seen n [] b h a e = e
  sweep-get cutoff seen n ((k, corrupt) ∷ es) b h a e = sweep-get cutoff seen n es b h a.1 e
  sweep-get cutoff seen n ((k, json t) ∷ es) b h a e = elim (Bool-cases (ltb t cutoff)) [
    | inr old ↦ rw old (sweep-get cutoff seen n es b h a.1 e)
    | inl old ↦ elim a.0 [
      | inl ne ↦ rw old (
          sweep-get cutoff seen n es (delete k b) h a.1
            (get-delete k n b ∙ (ground (arith, eq_iff k n, ne, e))))
      | inr same ↦ absurd (ground (arith, same, old, h))
    ]
  ]

  -- What a stored nonce and the clock guarantee: the nonce is there, and it is not yet due for the
  -- sweep at the time `limit`.
  pub record Remembers (n : String) (seen limit : ℕ) (b : Bucket (Cell ℕ)) : Type 0 where
    pub stored : get n b ≡ some (json seen)
    pub fresh : (limit - 2 * auth_window) / second ≤ seen

  not_stored_twice :
      (n m : String) (seen : ℕ) (b : Bucket (Cell ℕ))
      → get m b ≡ none
      → get n b ≡ some (json seen)
      → (m == n) ≡ false
  not_stored_twice n m seen b e f = elim (Bool-cases (m == n)) [
    | inr ne ↦ ne
    | inl same ↦ absurd (ground (arith, e, f, ap (λ k. get k b) ((eq_iff m n).0 same)))
  ]

  accept_nonce-Remembers :
      (n m : String) (seen limit now : ℕ) (b : Bucket (Cell ℕ))
      → now ≤ limit
      → Remembers n seen limit b
      → Remembers n seen limit (accept_nonce bolt m now auth_window b).0
  unfolding accept_nonce
  accept_nonce-Remembers n m seen limit now b h r = elim (Option-cases (get m b)) [
    | inr (x, e) ↦ rw e r
    | inl e ↦ elim (Bool-cases (accepts m)) [
      | inr q ↦ rw (e, q) r
      | inl q ↦
          rw (e, q)
            record {
              stored =
                  get-put m n (json (now / second)) _
                  ∙ (rw (not_stored_twice n m seen b e r.stored) (
                      sweep-get ((now - 2 * auth_window) / second) seen n (entries b) b
                        (sweep_cutoff now limit seen h r.fresh)
                        (entries-Agrees bolt n (json seen) b r.stored) r.stored));
              fresh = r.fresh;
            }
    ]
  ]

  authenticate-Remembers :
      (crypto : Crypto) (key : String) (q : Request) (n : String) (seen limit now : ℕ)
      (b : Bucket (Cell ℕ))
      → now ≤ limit
      → Remembers n seen limit b
      → Remembers n seen limit (authenticate bolt crypto key now q b).0
  unfolding authenticate
  authenticate-Remembers crypto key q n seen limit now b h r =
      elim (Bool-cases (ltb max_request_bytes (len q.body))) [
        | inl big ↦ rw big r
        | inr fits ↦ elim (Option-cases (verify_request crypto q key now auth_window)) [
          | inr (x, e) ↦ rw (fits, e) r
          | inl e ↦ rw (fits, e) (accept_nonce-Remembers n q.nonce seen limit now b h r)
        ]
      ]

  -- Requests with the time at which each is read, one after the other.
  unfoldable pub authenticate_all :
      Crypto → String → List (ℕ × Request) → Bucket (Cell ℕ) → Bucket (Cell ℕ)
  authenticate_all crypto key [] b = b
  authenticate_all crypto key ((now, q) ∷ qs) b =
      authenticate_all crypto key qs (authenticate bolt crypto key now q b).0

  authenticate_all-Remembers :
      (crypto : Crypto) (key : String) (n : String) (seen limit : ℕ) (qs : List (ℕ × Request))
      (b : Bucket (Cell ℕ))
      → All (λ (e : ℕ × Request). e.0 ≤ limit) qs
      → Remembers n seen limit b
      → Remembers n seen limit (authenticate_all crypto key qs b)
  unfolding authenticate_all
  authenticate_all-Remembers crypto key n seen limit [] b h r = r
  authenticate_all-Remembers crypto key n seen limit ((now, q) ∷ qs) b h r =
      authenticate_all-Remembers crypto key n seen limit qs (authenticate bolt crypto key now q b).0
        h.1 (authenticate-Remembers crypto key q n seen limit now b h.0 r)

  -- A request that was served had a valid signature, and its nonce is stored with the time.
  authenticate-served :
      (crypto : Crypto) (key : String) (now : ℕ) (q : Request) (b : Bucket (Cell ℕ))
      → (authenticate bolt crypto key now q b).1 ≡ served
      → (verify_request crypto q key now auth_window ≡ none)
        × (get q.nonce b ≡ none)
        × (get q.nonce (authenticate bolt crypto key now q b).0 ≡ some (json (now / second)))
  unfolding authenticate accept_nonce nonce_verdict
  authenticate-served crypto key now q b h =
      elim (Bool-cases (ltb max_request_bytes (len q.body))) [
        | inl big ↦ absurd (ground (arith, big, h))
        | inr fits ↦ elim (Option-cases (verify_request crypto q key now auth_window)) [
          | inr (x, e) ↦ absurd (ground (arith, fits, e, h))
          | inl e ↦ elim (Option-cases (get q.nonce b)) [
            | inr (x, f) ↦ absurd (ground (arith, fits, e, f, h))
            | inl f ↦ elim (Bool-cases (accepts q.nonce)) [
              | inr a ↦ absurd (ground (arith, fits, e, f, a, h))
              | inl a ↦ (
                e,
                f,
                rw (fits, e, f, a)
                    (get-put q.nonce q.nonce _ _ ∙ (ground (arith, eq_iff q.nonce q.nonce))),
              )
            ]
          ]
        ]
      ]

  -- The bucket remembers a request that was served, up to the last time at which it verifies.
  authenticate-Remembers_served :
      (crypto : Crypto) (key : String) (q r : Request) (first last : ℕ) (b : Bucket (Cell ℕ))
      → r.timestamp ≡ q.timestamp
      → (authenticate bolt crypto key first q b).1 ≡ served
      → verify_request crypto r key last auth_window ≡ none
      → Remembers q.nonce (first / second) last (authenticate bolt crypto key first q b).0
  authenticate-Remembers_served crypto key q r first last b same once verified =
      let (v, _, put_) = authenticate-served crypto key first q b once in
      let (y, p, near_first) = verify_request-none crypto q key first auth_window v in
      let (z, p', near_last) = verify_request-none crypto r key last auth_window verified in
      let y≡z : y ≡ z = ground (arith, p, p', ap parse_int same) in
      record {
        stored = put_;
        fresh =
            fresh_again first last
              (is_outside_lem first last auth_window z (rw (sym y≡z) near_first) near_last);
      }

  -- Once a request is served, no request with the same nonce and timestamp is ever served again,
  -- whatever requests come between the two and at whatever time the second comes, if the clock of
  -- the requests between is not ahead of the clock of the second.
  pub authenticate-replay :
      (crypto : Crypto) (key : String) (q r : Request) (first last : ℕ)
      (between : List (ℕ × Request)) (b : Bucket (Cell ℕ))
      → r.nonce ≡ q.nonce
      → r.timestamp ≡ q.timestamp
      → All (λ (e : ℕ × Request). e.0 ≤ last) between
      → (authenticate bolt crypto key first q b).1 ≡ served
      → (authenticate bolt crypto key last r
          (authenticate_all crypto key between (authenticate bolt crypto key first q b).0)).1
        ≢ served
  authenticate-replay crypto key q r first last between b nonce stamp h once again =
      let (verified, absent, _) = authenticate-served crypto key last r _ again in
      let kept =
        authenticate_all-Remembers crypto key q.nonce (first / second) last between _ h
          (authenticate-Remembers_served crypto key q r first last b stamp once verified) in
      absurd (
        ground (
          arith,
          absent,
          kept.stored,
          ap
              (λ n.
                get n
                  (authenticate_all crypto key between (authenticate bolt crypto key first q b).0))
              nonce,
        ))
