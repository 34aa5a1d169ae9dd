-- ===== src/Value.antt =====
-- Values of Go's `interface{}` in the attribute maps of tickets, players, matches and proposals:
-- what `structpb.Struct.AsMap` gives and what pkg/server/matchmaker.go puts in.
use matchmaking_function_grp.Prelude.{
  ℕ, ◌/◌, ◌%◌, ◌^◌, ◌==◌, String, Bool, ◌&&◌, true, false, Option, none, some, List, str_eq,
  if◌then◌else◌,
}

-- A float64 is its 64 bits, and a text is valid UTF-8, as those of messages are. `strings` is a
-- `[]string`, `array` a `[]interface{}` and `object` a `map[string]interface{}`; a map is the list
-- of its entries.
mutual
  pub data Value : Type 0 where
    null : Value
    bool : Bool → Value
    number : ℕ → Value
    text : String → Value
    strings : List String → Value
    array : Items → Value
    object : Fields → Value

  pub data Items : Type 0 where
    nil : Items
    cons : Value → Items → Items

  pub data Fields : Type 0 where
    end : Fields
    field : String → Value → Fields → Fields

-- A `map[string]interface{}`; `none` is the nil map.
abbrev pub Attributes : Type 0
Attributes = Option Fields

-- `len(m) == 0`
abbrev pub is_empty : Attributes → Bool
is_empty none = true
is_empty (some end) = true
is_empty (some (field k v fs)) = false

-- `m[k] = v` on a map that is not nil
unfoldable pub assign : String → Value → Fields → Fields
assign k v end = field k v end
assign k v (field j w fs) = if str_eq j k then field k v fs else field j w (assign k v fs)

-- `m[k]` with the test for presence
unfoldable pub lookup : String → Fields → Option Value
lookup k end = none
lookup k (field j w fs) = if str_eq j k then some w else lookup k fs

-- NaN and the infinities have the largest exponent.
abbrev pub is_finite : ℕ → Bool
is_finite bits = if (bits / 2 ^ 52) % 2 ^ 11 == 2047 then false else true

-- The values that come back from a `structpb.Struct` as they were: `NewValue` takes no `[]string`,
-- and `AsInterface` gives a text for a number that is not finite.
unfoldable mutual
  pub is_plain : Value → Bool
  is_plain null = true
  is_plain (bool b) = true
  is_plain (number bits) = is_finite bits
  is_plain (text s) = true
  is_plain (strings ss) = false
  is_plain (array items) = is_plain_items items
  is_plain (object fields) = is_plain_fields fields

  pub is_plain_items : Items → Bool
  is_plain_items nil = true
  is_plain_items (cons v items) = is_plain v && is_plain_items items

  pub is_plain_fields : Fields → Bool
  is_plain_fields end = true
  is_plain_fields (field k v fields) = is_plain v && is_plain_fields fields
