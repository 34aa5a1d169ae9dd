-- ===== src/Convert/Whole.antt =====
-- What `convertAttribute` makes of a map that is not nil.
use matchmaking_function_grp.Prelude.{
  ◌≡◌, refl, inl, inr, String, Bool, true, false, ◌&&◌, Bool-cases, none, some, arith,
  if◌then◌else◌,
}
use matchmaking_function_grp.Value.{
  Value, null, bool, number, text, strings, array, object, Items, nil, cons, Fields, end, field,
  is_plain_fields, is_finite, Attributes,
}
use matchmaking_function_grp.Convert.Json.{
  text_items, cons_item, cons_field, map_value, through_json, items_through_json,
  fields_through_json, convert_attribute,
}
use matchmaking_function_grp.Convert.Plain.{fields_through_json-IsJson}

-- No number in the value is NaN or infinite.
unfoldable mutual
  are_finite : Value → Bool
  are_finite null = true
  are_finite (bool b) = true
  are_finite (number bits) = is_finite bits
  are_finite (text s) = true
  are_finite (strings ss) = true
  are_finite (array items) = are_finite_items items
  are_finite (object fields) = are_finite_fields fields

  are_finite_items : Items → Bool
  are_finite_items nil = true
  are_finite_items (cons v items) = are_finite v && are_finite_items items

  pub are_finite_fields : Fields → Bool
  are_finite_fields end = true
  are_finite_fields (field k v fields) = are_finite v && are_finite_fields fields

-- The value with each `[]string` in it as a `[]interface{}`.
unfoldable mutual
  generic : Value → Value
  generic null = null
  generic (bool b) = bool b
  generic (number bits) = number bits
  generic (text s) = text s
  generic (strings ss) = array (text_items ss)
  generic (array items) = array (generic_items items)
  generic (object fields) = object (generic_fields fields)

  generic_items : Items → Items
  generic_items nil = nil
  generic_items (cons v items) = cons (generic v) (generic_items items)

  pub generic_fields : Fields → Fields
  generic_fields end = end
  generic_fields (field k v fields) = field k (generic v) (generic_fields fields)

both-item :
    (b c : Bool) (v : Value) (items : Items)
    → cons_item (if b then some v else none) (if c then some items else none)
      ≡ (if b && c then some (cons v items) else none)
both-item b c v items = ground arith

both-field :
    (k : String) (b c : Bool) (v : Value) (fields : Fields)
    → cons_field k (if b then some v else none) (if c then some fields else none)
      ≡ (if b && c then some (field k v fields) else none)
both-field k b c v fields = ground arith

map_value-if :
    {A : Type 0} (f : A → Value) (b : Bool) (a : A)
    → map_value f (if b then some a else none) ≡ (if b then some (f a) else none)
map_value-if f b a = ground arith

mutual
  unfolding through_json items_through_json fields_through_json are_finite are_finite_items
      are_finite_fields generic generic_items generic_fields

  through_json_lem :
      (v : Value) → through_json v ≡ (if are_finite v then some (generic v) else none)
  through_json_lem null = refl
  through_json_lem (bool b) = refl
  through_json_lem (number bits) = refl
  through_json_lem (text s) = refl
  through_json_lem (strings ss) = refl
  through_json_lem (array items) =
      rw (items_through_json_lem items) (map_value-if array (are_finite_items items) _)
  through_json_lem (object fields) =
      rw (fields_through_json_lem fields) (map_value-if object (are_finite_fields fields) _)

  items_through_json_lem :
      (items : Items)
      → items_through_json items
        ≡ (if are_finite_items items then some (generic_items items) else none)
  items_through_json_lem nil = refl
  items_through_json_lem (cons v items) =
      rw (through_json_lem v, items_through_json_lem items)
        (both-item (are_finite v) (are_finite_items items) _ _)

  fields_through_json_lem :
      (fields : Fields)
      → fields_through_json fields
        ≡ (if are_finite_fields fields then some (generic_fields fields) else none)
  fields_through_json_lem end = refl
  fields_through_json_lem (field k v fields) =
      rw (through_json_lem v, fields_through_json_lem fields)
        (both-field k (are_finite v) (are_finite_fields fields) _ _)

-- What `convertAttribute` gives for a map: one that it gives back the next time, too.
pub data Converts (fields : Fields) (result : Attributes) : Type 0 where
  through :
      are_finite_fields fields ≡ true
      → result ≡ some (generic_fields fields)
      → is_plain_fields (generic_fields fields) ≡ true
      → convert_attribute result ≡ result
      → Converts fields result
  unchanged :
      are_finite_fields fields ≡ false
      → result ≡ some fields
      → convert_attribute result ≡ result
      → Converts fields result

kept :
    (fields : Fields)
    → fields_through_json fields ≡ none
    → convert_attribute (some fields) ≡ some fields
unfolding convert_attribute
kept fields h = rw h refl

changed :
    (fields : Fields) {r : Fields}
    → fields_through_json fields ≡ some r
    → convert_attribute (some fields) ≡ some r
unfolding convert_attribute
changed fields h = rw h refl

-- For every map that is not nil: if no number in it, at any depth, is NaN or infinite,
-- `convertAttribute` gives it back with each `[]string` in it as a `[]interface{}`, and the map
-- that it gives has only values that come back from a `structpb.Struct` as they were; else it
-- gives the map itself. Applied once more, it gives the same.
pub convert_attribute-Converts :
    (fields : Fields) → Converts fields (convert_attribute (some fields))
convert_attribute-Converts fields = elim (Bool-cases (are_finite_fields fields)) [
  | inl finite ↦
      let h : fields_through_json fields ≡ some (generic_fields fields) =
        rw (fields_through_json_lem fields, finite) refl in
      let json = fields_through_json-IsJson fields (generic_fields fields) h in
      rw (changed fields h)
        (through finite refl json.plain (changed (generic_fields fields) json.again))
  | inr infinite ↦
      let h : fields_through_json fields ≡ none =
        rw (fields_through_json_lem fields, infinite) refl in
      rw (kept fields h) (unchanged infinite refl (kept fields h))
]
