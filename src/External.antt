-- ===== src/External.antt =====
-- Code that is not in the repository: the module github.com/elliotchance/pie/v2 and the packages
-- structpb and timestamppb of google.golang.org/protobuf, as records of the functions that the
-- program calls, with their documented behaviour.
use matchmaking_function_grp.Prelude.{
  ℤ, pos, negsuc, ℕ, ◌≡◌, refl, List, map, true, Option, none, some, if◌then◌else◌,
}
use matchmaking_function_grp.Value.{Attributes, Fields, end, is_plain_fields}

-- `pie.Map` "will return a new slice where each element has been mapped".
pub record Pie : Type 1 where
  pub pie_map : {A B : Type 0} → (A → B) → List A → List B
  pub pie_map_lem : {A B : Type 0} (f : A → B) (xs : List A) → pie_map f xs ≡ map f xs

-- A package that meets the assumption.
abbrev pub plain_pie : Pie
plain_pie = record { pie_map = λ f xs. map f xs; pie_map_lem = λ f xs. refl }

-- Go's `time.Time` in UTC: seconds since 1970 and nanoseconds.
pub record Time : Type 0 where
  pub seconds : ℤ
  pub nanos : ℕ

-- `time.Time{}`, the first of January of the year 1
abbrev pub zero_time : Time
zero_time = record { seconds = negsuc 62135596799; nanos = 0 }

-- The packages structpb and timestamppb: `structpb.NewStruct`, whose result is nil if it fails,
-- `(*Struct).AsMap` and `(*Timestamp).AsTime`, which take nil too, and `timestamppb.New`.
pub record Protobuf : Type 1 where
  pub Struct : Type 0
  pub Timestamp : Type 0
  pub new_struct : Attributes → Option Struct
  pub as_map : Option Struct → Attributes
  pub new_timestamp : Time → Timestamp
  pub as_time : Option Timestamp → Time

-- `AsMap` makes a map, also the empty one for nil.
abbrev pub MakesMaps : Protobuf → Type 0
MakesMaps pb = (s : Option pb.Struct) → (fields : Fields) × (pb.as_map s ≡ some fields)

-- What the packages promise: `NewStruct` takes the values that `NewValue` lists, among which
-- `[]string` is not, and if all numbers are finite, `AsMap` gives back the map; for others it gives
-- the texts NaN, Infinity and -Infinity. `AsTime` gives back the time.
pub record IsProtobuf (pb : Protobuf) : Type 0 where
  pub new_struct-plain :
      (fields : Fields)
      → is_plain_fields fields ≡ true
      → (s : pb.Struct) × (pb.new_struct (some fields) ≡ some s)
        × (pb.as_map (some s) ≡ some fields)
  pub as_map-some : MakesMaps pb
  pub as_time-new : (t : Time) → pb.as_time (some (pb.new_timestamp t)) ≡ t

abbrev plain_struct : Attributes → Option Fields
plain_struct none = some end
plain_struct (some fields) = if is_plain_fields fields then some fields else none

abbrev plain_map : Option Fields → Attributes
plain_map none = some end
plain_map (some fields) = some fields

abbrev plain_time : Option Time → Time
plain_time none = record { seconds = pos 0; nanos = 0 }
plain_time (some t) = t

abbrev pub plain_protobuf : Protobuf
plain_protobuf = record {
  Struct = Fields;
  Timestamp = Time;
  new_struct = plain_struct;
  as_map = plain_map;
  new_timestamp = λ t. t;
  as_time = plain_time;
}

plain_map-some : (s : Option Fields) → (fields : Fields) × (plain_map s ≡ some fields)
plain_map-some none = (end, refl)
plain_map-some (some fields) = (fields, refl)

pub plain_protobuf-MakesMaps : MakesMaps plain_protobuf
plain_protobuf-MakesMaps = plain_map-some

-- Packages that meet the assumptions.
pub plain_protobuf-IsProtobuf : IsProtobuf plain_protobuf
plain_protobuf-IsProtobuf = record {
  new_struct-plain = λ fields h. (fields, rw h, refl);
  as_map-some = plain_map-some;
  as_time-new = λ t. refl;
}
