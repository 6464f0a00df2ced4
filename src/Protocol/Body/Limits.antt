-- ===== src/Protocol/Body/Limits.antt =====
-- What the limits of a governance body keep out.
use Prim.Native.Nat.{max}
use toolhub.Common.{
  ℕ, ◌+◌, ◌≤◌, String, len, Bool, false, ◌||◌, Option, some, Result, ok, >>=-eq-ok, ltb, leb, ◌==◌,
  ◌≡◌, arith, inl, inr, Bool-cases, Option-cases,
}
use toolhub.Json.{Json, null, bool, num, str, arr, obj, Items, nil, cons, Fields, end, field}
use toolhub.Protocol.Body.{
  BodyError, check_key, is_schema_field, child_path, normalized_field_name,
  validate_governance_value, validate_items, validate_fields, within, depth_limit,
  validate_governance_body, max_items, max_body_bytes,
}

mutual
  -- The number of values in a value, itself and at any depth.
  pub count : Json → ℕ
  count (obj fs) = count_fields fs + 1
  count (arr vs) = count_items vs + 1
  count _ = 1

  pub count_items : Items → ℕ
  count_items nil = 0
  count_items (cons v vs) = count v + count_items vs

  pub count_fields : Fields → ℕ
  count_fields end = 0
  count_fields (field k v fs) = count v + count_fields fs

mutual
  -- How deep a value is nested.
  pub height : Json → ℕ
  height (obj fs) = height_fields fs
  height (arr vs) = height_items vs
  height _ = 0

  pub height_items : Items → ℕ
  height_items nil = 0
  height_items (cons v vs) = max (height v + 1) (height_items vs)

  pub height_fields : Fields → ℕ
  height_fields end = 0
  height_fields (field k v fs) = max (height v + 1) (height_fields fs)

within-ok :
    (limit depth items n : ℕ) (r : Result BodyError ℕ)
    → within limit depth items r ≡ ok n
    → (r ≡ ok n) × (depth ≤ limit) × (items + 1 ≤ 10000)
unfolding within
within-ok limit depth items n r h = elim (Bool-cases (ltb limit depth || leb max_items items)) [
  | inl e ↦ absurd (ground (arith, e, h))
  | inr e ↦ (ground (arith, e, h), ground (arith, e), ground (arith, e))
]

mutual
  unfolding validate_governance_value validate_items validate_fields count count_items count_fields
      height height_items height_fields

  walk_value :
      (limit : ℕ) (v : Json) (depth items n : ℕ) (b : Bool) (path : String)
      → validate_governance_value limit v depth items b path ≡ ok n
      → (n ≡ items + count v) × (depth + height v ≤ limit) × (n ≤ 10000)
  walk_value limit (obj fs) depth items n b path h =
      let (e, d, m) = within-ok limit depth items n _ h in
      let (c, k, l) = walk_fields limit fs depth (items + 1) n b path d m e in
      (omega (arith, c), k, l)
  walk_value limit (arr vs) depth items n b path h =
      let (e, d, m) = within-ok limit depth items n _ h in
      let (c, k, l) = walk_items limit vs depth (items + 1) n b path d m e in
      (omega (arith, c), k, l)
  walk_value limit (str s) depth items n b path h =
      let (e, d, m) = within-ok limit depth items n _ h in
      (ground (arith, e), omega (arith, d), ground (arith, e, m))
  walk_value limit null depth items n b path h =
      let (e, d, m) = within-ok limit depth items n _ h in
      (ground (arith, e), omega (arith, d), ground (arith, e, m))
  walk_value limit (bool x) depth items n b path h =
      let (e, d, m) = within-ok limit depth items n _ h in
      (ground (arith, e), omega (arith, d), ground (arith, e, m))
  walk_value limit (num x) depth items n b path h =
      let (e, d, m) = within-ok limit depth items n _ h in
      (ground (arith, e), omega (arith, d), ground (arith, e, m))

  walk_items :
      (limit : ℕ) (vs : Items) (depth items n : ℕ) (b : Bool) (path : String)
      → depth ≤ limit
      → items ≤ 10000
      → validate_items limit vs depth items b path ≡ ok n
      → (n ≡ items + count_items vs) × (depth + height_items vs ≤ limit) × (n ≤ 10000)
  walk_items limit nil depth items n b path d m h =
      (ground (arith, h), omega (arith, d), ground (arith, h, m))
  walk_items limit (cons v vs) depth items n b path d m h =
      let (seen, e, f) =
        >>=-eq-ok (validate_governance_value limit v (depth + 1) items b _)
          (λ seen. validate_items limit vs depth seen b path) h in
      let (c, k, l) = walk_value limit v (depth + 1) items seen b _ e in
      let (c', k', l') = walk_items limit vs depth seen n b path d l f in
      (omega (arith, c, c'), omega (arith, k, k'), l')

  walk_fields :
      (limit : ℕ) (fs : Fields) (depth items n : ℕ) (b : Bool) (path : String)
      → depth ≤ limit
      → items ≤ 10000
      → validate_fields limit fs depth items b path ≡ ok n
      → (n ≡ items + count_fields fs) × (depth + height_fields fs ≤ limit) × (n ≤ 10000)
  walk_fields limit end depth items n b path d m h =
      (ground (arith, h), omega (arith, d), ground (arith, h, m))
  walk_fields limit (field k v fs) depth items n b path d m h =
      elim (Option-cases (check_key b k)) [
        | inr (x, q) ↦ absurd (ground (arith, q, h))
        | inl q ↦
            let (seen, e, f) =
              >>=-eq-ok
                (validate_governance_value limit v (depth + 1) items
                  (b || is_schema_field path (normalized_field_name k))
                  (child_path path (normalized_field_name k)))
                (λ seen. validate_fields limit fs depth seen b path)
                (rw (q, validate_fields) at h) in
            let (c, j, l) = walk_value limit v (depth + 1) items seen _ _ e in
            let (c', j', l') = walk_fields limit fs depth seen n b path d l f in
            (omega (arith, c, c'), omega (arith, j, j'), l')
      ]

-- A body that is accepted has at most 1 MiB and decodes to the result, which has at most 10000
-- values and is nested no deeper than 5, or 64 where it is a routing bundle.
pub validate_governance_body-limits :
    (decode : String → Option Json) (body : String) (v : Json)
    → validate_governance_body decode body ≡ ok v
    → (decode body ≡ some v) × (len body ≤ 1048576) × (count v ≤ 10000) × (height v ≤ depth_limit v)
unfolding validate_governance_body
validate_governance_body-limits decode body v h =
    elim (Bool-cases (body == "" || ltb max_body_bytes (len body))) [
      | inl e ↦ absurd (ground (arith, e, h))
      | inr e ↦ elim (Option-cases (decode body)) [
        | inl q ↦ absurd (ground (arith, e, q, h))
        | inr (w, q) ↦
            let (n, f, g) =
              >>=-eq-ok (validate_governance_value (depth_limit w) w 0 0 false "") (λ _. ok w)
                (rw (e, q, validate_governance_body) at h) in
            let (c, k, l) = walk_value (depth_limit w) w 0 0 n false "" f in
            let w≡v : w ≡ v = ground (arith, g) in
            rw (← w≡v) (q, ground (arith, e), omega (arith, c, l), omega (arith, k))
      ]
    ]
