-- ===== src/Convert/Plain.antt =====
-- What comes back from JSON: it holds no `[]string`, and it comes back unchanged the next time.
use matchmaking_function_grp.Prelude.{
  ℕ, ◌≡◌, refl, ap, String, Bool, true, Option, none, some, List, [], ◌∷◌, arith, if◌then◌else◌,
}
use matchmaking_function_grp.Value.{
  Value, null, bool, number, text, strings, array, object, Items, nil, cons, Fields, end, field,
  is_plain, is_plain_items, is_plain_fields, is_finite,
}
use matchmaking_function_grp.Convert.Json.{
  text_items, cons_item, cons_field, map_value, through_json, items_through_json,
  fields_through_json,
}

some_injective : {A : Type 0} {a b : A} → ◌≡◌ {A = Option A} (some a) (some b) → a ≡ b
some_injective h = cc

cons_item_inversion :
    (o : Option Value) (q : Option Items) {r : Items}
    → cons_item o q ≡ some r
    → (v : Value) × (items : Items) × (o ≡ some v) × (q ≡ some items) × (cons v items ≡ r)
cons_item_inversion none q h = cc
cons_item_inversion (some v) none h = cc
cons_item_inversion (some v) (some items) h = (v, items, refl, refl, cc)

cons_field_inversion :
    (k : String) (o : Option Value) (q : Option Fields) {r : Fields}
    → cons_field k o q ≡ some r
    → (v : Value) × (fields : Fields) × (o ≡ some v) × (q ≡ some fields) × (field k v fields ≡ r)
cons_field_inversion k none q h = cc
cons_field_inversion k (some v) none h = cc
cons_field_inversion k (some v) (some fields) h = (v, fields, refl, refl, cc)

map_value_inversion :
    {A : Type 0} (f : A → Value) (o : Option A) {r : Value}
    → map_value f o ≡ some r
    → (a : A) × (o ≡ some a) × (f a ≡ r)
map_value_inversion f none h = cc
map_value_inversion f (some a) h = (a, refl, cc)

-- A value that JSON gives back is plain, and JSON gives it back again.
record IsStable (v : Value) : Type 0 where
  plain : is_plain v ≡ true
  again : through_json v ≡ some v

record AreStable (items : Items) : Type 0 where
  plain : is_plain_items items ≡ true
  again : items_through_json items ≡ some items

pub record IsJson (fields : Fields) : Type 0 where
  pub plain : is_plain_fields fields ≡ true
  pub again : fields_through_json fields ≡ some fields

text_items-AreStable : (ss : List String) → AreStable (text_items ss)
unfolding is_plain is_plain_items through_json items_through_json
text_items-AreStable [] = record { plain = refl; again = refl }
text_items-AreStable (s ∷ ss) =
    let ih = text_items-AreStable ss in
    record { plain = ih.plain; again = ap (cons_item (some (text s))) ih.again }

if_inversion :
    {A : Type 0} (b : Bool) (x : A) {w : A}
    → ◌≡◌ {A = Option A} (if b then some x else none) (some w)
    → (b ≡ true) × (x ≡ w)
if_inversion b x h = ground arith

number-IsStable :
    (bits : ℕ) {w : Value}
    → (if is_finite bits then some (number bits) else none) ≡ some w
    → IsStable w
unfolding is_plain through_json
number-IsStable bits h =
    let (finite, same) = if_inversion (is_finite bits) (number bits) h in
    rw (← same)
      (record { plain = finite; again = ap (λ b. if b then some (number bits) else none) finite })

mutual
  unfolding is_plain is_plain_items is_plain_fields through_json items_through_json
      fields_through_json

  value-IsStable : (v : Value) {w : Value} → through_json v ≡ some w → IsStable w
  value-IsStable null h = rw (← some_injective h) (record { plain = refl; again = refl })
  value-IsStable (bool b) h = rw (← some_injective h) (record { plain = refl; again = refl })
  value-IsStable (number bits) h = number-IsStable bits h
  value-IsStable (text s) h = rw (← some_injective h) (record { plain = refl; again = refl })
  value-IsStable (strings ss) h =
      let ih = text_items-AreStable ss in
      rw (← some_injective h) (record { plain = ih.plain; again = ap (map_value array) ih.again })
  value-IsStable (array items) h =
      let (a, e, f) = map_value_inversion array (items_through_json items) h in
      let ih = items-AreStable items e in
      rw (← f) (record { plain = ih.plain; again = ap (map_value array) ih.again })
  value-IsStable (object fields) h =
      let (a, e, f) = map_value_inversion object (fields_through_json fields) h in
      let ih = fields-IsJson fields e in
      rw (← f) (record { plain = ih.plain; again = ap (map_value object) ih.again })

  items-AreStable : (items : Items) {r : Items} → items_through_json items ≡ some r → AreStable r
  items-AreStable nil h = rw (← some_injective h) (record { plain = refl; again = refl })
  items-AreStable (cons v items) h =
      let (w, rest, e, f, g) = cons_item_inversion (through_json v) (items_through_json items) h in
      let a = value-IsStable v e in
      let b = items-AreStable items f in
      rw (← g) (record { plain = rw a.plain b.plain; again = rw (a.again, b.again) })

  fields-IsJson : (fields : Fields) {r : Fields} → fields_through_json fields ≡ some r → IsJson r
  fields-IsJson end h = rw (← some_injective h) (record { plain = refl; again = refl })
  fields-IsJson (field k v fields) h =
      let (w, rest, e, f, g) =
        cons_field_inversion k (through_json v) (fields_through_json fields) h in
      let a = value-IsStable v e in
      let b = fields-IsJson fields f in
      rw (← g) (record { plain = rw a.plain b.plain; again = rw (a.again, b.again) })

-- A map that came from JSON has only values that `structpb.NewStruct` takes, and through JSON
-- it comes back the same the next time.
pub fields_through_json-IsJson :
    (fields : Fields) (r : Fields) → fields_through_json fields ≡ some r → IsJson r
fields_through_json-IsJson fields r h = fields-IsJson fields h
