-- ===== src/Policy/SchemaMarks.antt =====
-- The schema walks against inductive descriptions of the values that they look for.
use toolhub.Common.{
  Char, String, Bool, true, false, ◌≡◌, ◌↔◌, ◌&&◌, ◌||◌, inl, inr, refl, arith, Bool-cases,
  ||-cases, ||-right, eq_iff,
}
use toolhub.Common.Text.{to_lower}
use toolhub.Json.{Json, bool, arr, obj, Items, nil, cons, Fields, end, field, is_true}
use toolhub.Policy.Schema.{
  is_read_only_key, is_skipped_key, is_mutation_key, value_indicates_read_only,
  items_indicate_read_only, fields_indicate_read_only, value_suggests_mutation,
  items_suggest_mutation, fields_suggest_mutation,
}

module _ (marks : String → Json → Bool) where
  -- Some map, at any depth of the value, has a field that is marked.
  mutual
    pub data Marked : Json → Type 0 where
      in_arr : {xs : Items} → MarkedItems xs → Marked (arr xs)
      in_obj : {fs : Fields} → MarkedFields fs → Marked (obj fs)

    pub data MarkedItems : Items → Type 0 where
      first : {x : Json} {xs : Items} → Marked x → MarkedItems (cons x xs)
      later : {x : Json} {xs : Items} → MarkedItems xs → MarkedItems (cons x xs)

    pub data MarkedFields : Fields → Type 0 where
      here : {k : String} {v : Json} {fs : Fields} → marks k v ≡ true → MarkedFields (field k v fs)
      below : {k : String} {v : Json} {fs : Fields} → Marked v → MarkedFields (field k v fs)
      beyond : {k : String} {v : Json} {fs : Fields} → MarkedFields fs → MarkedFields (field k v fs)

  -- The same as a test.
  mutual
    finds : Json → Bool
    finds (arr xs) = finds_items xs
    finds (obj fs) = finds_fields fs
    finds _ = false

    finds_items : Items → Bool
    finds_items nil = false
    finds_items (cons x xs) = finds x || finds_items xs

    finds_fields : Fields → Bool
    finds_fields end = false
    finds_fields (field k v fs) = marks k v || (finds v || finds_fields fs)

  mutual
    unfolding finds

    finds_sound : (v : Json) → finds v ≡ true → Marked v
    finds_sound (obj fs) h = in_obj (finds_sound_fields fs h)
    finds_sound (arr xs) h = in_arr (finds_sound_items xs h)
    finds_sound _ h = cc

    finds_sound_items : (xs : Items) → finds_items xs ≡ true → MarkedItems xs
    finds_sound_items nil h = cc
    finds_sound_items (cons x xs) h = elim (||-cases h) [
      | inl e ↦ first (finds_sound x e)
      | inr e ↦ later (finds_sound_items xs e)
    ]

    finds_sound_fields : (fs : Fields) → finds_fields fs ≡ true → MarkedFields fs
    finds_sound_fields end h = cc
    finds_sound_fields (field k v fs) h = elim (||-cases h) [
      | inl e ↦ here e
      | inr e ↦ elim (||-cases e) [
        | inl b ↦ below (finds_sound v b)
        | inr b ↦ beyond (finds_sound_fields fs b)
      ]
    ]

  mutual
    unfolding finds

    finds_complete : {v : Json} → Marked v → finds v ≡ true
    finds_complete (in_arr m) = finds_complete_items m
    finds_complete (in_obj m) = finds_complete_fields m

    finds_complete_items : {xs : Items} → MarkedItems xs → finds_items xs ≡ true
    finds_complete_items (first m) = rw (finds_complete m)
    finds_complete_items (later {x} m) = ||-right (finds x) (finds_complete_items m)

    finds_complete_fields : {fs : Fields} → MarkedFields fs → finds_fields fs ≡ true
    finds_complete_fields (here e) = rw e
    finds_complete_fields (below {k} {v} m) = ||-right (marks k v) (rw (finds_complete m))
    finds_complete_fields (beyond {k} {v} m) =
        ||-right (marks k v) (||-right (finds v) (finds_complete_fields m))

abbrev pub marks_read_only : (Char → Char) → String → Json → Bool
marks_read_only u key child = is_read_only_key (to_lower u key) && is_true child

abbrev pub marks_mutation : (Char → Char) → String → Json → Bool
marks_mutation u key child = is_mutation_key (to_lower u key) && is_true child

mutual
  unfolding value_indicates_read_only finds

  read_only-finds :
      (u : Char → Char) (v : Json) → value_indicates_read_only u v ≡ finds (marks_read_only u) v
  read_only-finds u (obj fs) = read_only-finds_fields u fs
  read_only-finds u (arr xs) = read_only-finds_items u xs
  read_only-finds u _ = refl

  read_only-finds_items :
      (u : Char → Char) (xs : Items)
      → items_indicate_read_only u xs ≡ finds_items (marks_read_only u) xs
  read_only-finds_items u nil = refl
  read_only-finds_items u (cons x xs) = rw (read_only-finds u x, read_only-finds_items u xs)

  read_only-finds_fields :
      (u : Char → Char) (fs : Fields)
      → fields_indicate_read_only u fs ≡ finds_fields (marks_read_only u) fs
  read_only-finds_fields u end = refl
  read_only-finds_fields u (field k v fs) = rw (read_only-finds u v, read_only-finds_fields u fs)

-- A skipped field holds nothing that the mutation walk looks for.
skipped_key : (k : String) → is_skipped_key k ≡ true → is_mutation_key k ≡ false
skipped_key k h = elim (||-cases h) [
  | inl e ↦ rw ((eq_iff k "readOnly").0 e)
  | inr e ↦ rw ((eq_iff k "readonly").0 e)
]

mutual
  unfolding value_suggests_mutation finds

  mutation-finds :
      (u : Char → Char) (v : Json) → value_suggests_mutation u v ≡ finds (marks_mutation u) v
  mutation-finds u (obj fs) = mutation-finds_fields u fs
  mutation-finds u (arr xs) = mutation-finds_items u xs
  mutation-finds u _ = refl

  mutation-finds_items :
      (u : Char → Char) (xs : Items)
      → items_suggest_mutation u xs ≡ finds_items (marks_mutation u) xs
  mutation-finds_items u nil = refl
  mutation-finds_items u (cons x xs) = rw (mutation-finds u x, mutation-finds_items u xs)

  mutation-finds_fields :
      (u : Char → Char) (fs : Fields)
      → fields_suggest_mutation u fs ≡ finds_fields (marks_mutation u) fs
  mutation-finds_fields u end = refl
  mutation-finds_fields u (field k (bool true) fs) =
      elim (Bool-cases (is_skipped_key (to_lower u k))) [
        | inl e ↦ rw (e, skipped_key (to_lower u k) e) (mutation-finds_fields u fs)
        | inr e ↦ rw e (rw (mutation-finds_fields u fs))
      ]
  mutation-finds_fields u (field k v fs) =
      ground (arith, mutation-finds u v, mutation-finds_fields u fs)

-- The read-only walk answers true exactly when some map in the schema, at any depth, has one of the
-- three read-only keys, in any case, with the value true.
pub value_indicates_read_only_iff :
    (u : Char → Char) (v : Json)
    → (value_indicates_read_only u v ≡ true) ↔ Marked (marks_read_only u) v
value_indicates_read_only_iff u v =
    rw (read_only-finds u v) (finds_sound (marks_read_only u) v, finds_complete (marks_read_only u))

-- The mutation walk answers true exactly when some map in the schema, at any depth, has one of the
-- mutation keys, in any case, with the value true: the fields that `continue` skips never count.
pub value_suggests_mutation_iff :
    (u : Char → Char) (v : Json)
    → (value_suggests_mutation u v ≡ true) ↔ Marked (marks_mutation u) v
value_suggests_mutation_iff u v =
    rw (mutation-finds u v) (finds_sound (marks_mutation u) v, finds_complete (marks_mutation u))
