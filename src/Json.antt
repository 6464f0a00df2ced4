-- ===== src/Json.antt =====
-- A decoded JSON value, Go's `any` after json.Unmarshal. A Go map is its fields in the order of
-- one iteration.
use toolhub.Common.{String, Bool, false, Option, none, some, ◌==◌, if◌then◌else◌}

mutual
  pub data Json : Type 0 where
    null : Json
    bool : Bool → Json
    num : String → Json
    str : String → Json
    arr : Items → Json
    obj : Fields → Json

  pub data Items : Type 0 where
    nil : Items
    cons : Json → Items → Items

  pub data Fields : Type 0 where
    end : Fields
    field : String → Json → Fields → Fields

-- The value at a key of a map.
unfoldable pub lookup_field : String → Fields → Option Json
lookup_field k end = none
lookup_field k (field j v fs) = if j == k then some v else lookup_field k fs

-- `marker, ok := child.(bool); ok && marker`
abbrev pub is_true : Json → Bool
is_true (bool b) = b
is_true _ = false

-- A json.RawMessage: no bytes, bytes that do not decode, or the value that they decode to.
pub data RawMessage : Type 0 where
  empty : RawMessage
  malformed : RawMessage
  decoded : Json → RawMessage
