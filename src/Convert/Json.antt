-- ===== src/Convert/Json.antt =====
-- `convertAttribute`: an attribute map through `json.Marshal` and back by `json.Unmarshal`.
use matchmaking_function_grp.Prelude.{String, Option, none, some, List, [], ◌∷◌, if◌then◌else◌}
use matchmaking_function_grp.Value.{
  Value, null, bool, number, text, strings, array, object, Items, nil, cons, Fields, end, field,
  Attributes, is_finite,
}

abbrev pub text_items : List String → Items
text_items [] = nil
text_items (s ∷ ss) = cons (text s) (text_items ss)

abbrev pub cons_item : Option Value → Option Items → Option Items
cons_item (some v) (some items) = some (cons v items)
cons_item v items = none

abbrev pub cons_field : String → Option Value → Option Fields → Option Fields
cons_field k (some v) (some fields) = some (field k v fields)
cons_field k v fields = none

abbrev pub map_value : {A : Type 0} → (A → Value) → Option A → Option Value
map_value f none = none
map_value f (some a) = some (f a)

-- The value that comes back; `none` is an error of `json.Marshal`, which refuses a number that is
-- not finite. A `[]string` comes back as a `[]interface{}`.
unfoldable mutual
  pub through_json : Value → Option Value
  through_json null = some null
  through_json (bool b) = some (bool b)
  through_json (number bits) = if is_finite bits then some (number bits) else none
  through_json (text s) = some (text s)
  through_json (strings ss) = some (array (text_items ss))
  through_json (array items) = map_value array (items_through_json items)
  through_json (object fields) = map_value object (fields_through_json fields)

  pub items_through_json : Items → Option Items
  items_through_json nil = some nil
  items_through_json (cons v items) = cons_item (through_json v) (items_through_json items)

  pub fields_through_json : Fields → Option Fields
  fields_through_json end = some end
  fields_through_json (field k v fields) =
      cons_field k (through_json v) (fields_through_json fields)

abbrev pub or_same : Fields → Option Fields → Attributes
or_same fields none = some fields
or_same fields (some fields') = some fields'

-- The map that `convertAttribute` returns, next to an error that its callers only log: on an error
-- the argument. The nil map becomes `null` and nil again.
unfoldable pub convert_attribute : Attributes → Attributes
convert_attribute none = none
convert_attribute (some fields) = or_same fields (fields_through_json fields)
