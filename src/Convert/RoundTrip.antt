-- ===== src/Convert/RoundTrip.antt =====
-- What a message keeps on its way through the matchmaker and back.
use matchmaking_function_grp.Prelude.{◌≡◌, refl, ◌∙◌, some, List, [], ◌∷◌, map, All}
use matchmaking_function_grp.Value.{Fields, Attributes}
use matchmaking_function_grp.External.{Pie, Protobuf, IsProtobuf}
use matchmaking_function_grp.PlayerData.{PlayerData, id_to_string, id_from_string}
use matchmaking_function_grp.DataObjects.{Ticket, Match, Team, Party}
use matchmaking_function_grp.Convert.Json.{fields_through_json, convert_attribute}
use matchmaking_function_grp.Convert.Plain.{IsJson, fields_through_json-IsJson}
use matchmaking_function_grp.Convert.FromProto.{
  proto_party, proto_team, proto_player, proto_ticket_to_matchfunction_ticket,
  proto_match_team_to_match, proto_match_to_matchfunction_match,
}
use matchmaking_function_grp.Convert.ToProto.{
  to_proto_party, to_proto_team, converted_player, matchfunction_ticket_to_proto_ticket,
  matchfunction_match_to_proto_match,
}

-- The attributes are what came from JSON or from the protocol.
abbrev pub HasJson : Attributes → Type 0
HasJson a = (fields : Fields) × (a ≡ some fields) × (IsJson fields)

-- A player as the conversion gives it back: without its party.
abbrev pub without_party : PlayerData → PlayerData
without_party p = record p { party_id = "" }

abbrev pub without_parties : Ticket → Ticket
without_parties t = record t { players = map without_party t.players }

pub record HasJsonAttributes (t : Ticket) : Type 0 where
  pub of_ticket : HasJson t.ticket_attributes
  pub of_players : All (λ (p : PlayerData). HasJson p.attributes) t.players

map-inverse :
    {A B : Type 0} (P : A → Type 0) (f : A → B) (g : B → A) (h : A → A)
    → ((a : A) → P a → g (f a) ≡ h a)
    → (xs : List A) → All P xs
    → map g (map f xs) ≡ map h xs
map-inverse P f g h e [] p = refl
map-inverse P f g h e (x ∷ xs) (p, ps) = rw (e x p, map-inverse P f g h e xs ps)

map_id : {A : Type 0} (xs : List A) → map (λ x. x) xs ≡ xs
map_id [] = refl
map_id (x ∷ xs) = rw (map_id xs)

All-trivial : {A : Type 0} (xs : List A) → All (λ x. Unit {0}) xs
All-trivial [] = tt
All-trivial (x ∷ xs) = (tt, All-trivial xs)

map_inverse_id :
    {A B : Type 0} (f : A → B) (g : B → A)
    → ((a : A) → g (f a) ≡ a)
    → (xs : List A) → map g (map f xs) ≡ xs
map_inverse_id f g e xs =
    map-inverse (λ a. Unit {0}) f g (λ a. a) (λ a _. e a) xs (All-trivial xs) ∙ map_id xs

pub pie_inverse :
    {A B : Type 0} (pie : Pie) (P : A → Type 0) (f : A → B) (g : B → A) (h : A → A)
    → ((a : A) → P a → g (f a) ≡ h a)
    → (xs : List A) → All P xs
    → pie.pie_map g (pie.pie_map f xs) ≡ map h xs
pie_inverse pie P f g h e xs p =
    rw (pie.pie_map_lem f xs, pie.pie_map_lem g (map f xs)) (map-inverse P f g h e xs p)

pub pie_inverse_id :
    {A B : Type 0} (pie : Pie) (f : A → B) (g : B → A)
    → ((a : A) → g (f a) ≡ a)
    → (xs : List A) → pie.pie_map g (pie.pie_map f xs) ≡ xs
pie_inverse_id pie f g e xs =
    rw (pie.pie_map_lem f xs, pie.pie_map_lem g (map f xs)) (map_inverse_id f g e xs)

module _ (pb : Protobuf) (laws : IsProtobuf pb) where
  -- An attribute map that JSON gives back as `r` arrives as `r`.
  pub as_map-convert_attribute :
      (fields r : Fields)
      → fields_through_json fields ≡ some r
      → pb.as_map (pb.new_struct (convert_attribute (some fields))) ≡ some r
  unfolding convert_attribute
  as_map-convert_attribute fields r h =
      let (s, made, back) = laws.new_struct-plain r (fields_through_json-IsJson fields r h).plain in
      rw (h, made) back

  pub as_map-HasJson :
      (a : Attributes) → HasJson a → pb.as_map (pb.new_struct (convert_attribute a)) ≡ a
  as_map-HasJson a (fields, e, json) = rw e (as_map-convert_attribute fields fields json.again)

module _ (pie : Pie) (pb : Protobuf) (laws : IsProtobuf pb) where
  player-round :
      (p : PlayerData)
      → HasJson p.attributes
      → proto_player pie pb (converted_player pie pb p) ≡ without_party p
  unfolding proto_player converted_player
  player-round p h = λ i. record {
    player_id = p.player_id;
    party_id = "";
    attributes = as_map-HasJson pb laws p.attributes h i;
  }

  -- If its attributes and those of its players are maps as JSON gives them, a ticket that is
  -- converted to a message and back is the same, but for the party of each player, which the
  -- message has no field for.
  pub ticket_round_trip :
      (t : Ticket)
      → HasJsonAttributes t
      → proto_ticket_to_matchfunction_ticket pie pb (matchfunction_ticket_to_proto_ticket pie pb t)
        ≡ without_parties t
  unfolding proto_ticket_to_matchfunction_ticket matchfunction_ticket_to_proto_ticket
  ticket_round_trip t h = λ i. record t {
    created_at = laws.as_time-new t.created_at i;
    players =
        pie_inverse pie (λ p. HasJson p.attributes) (converted_player pie pb) (proto_player pie pb)
          without_party player-round t.players h.of_players i;
    ticket_attributes = as_map-HasJson pb laws t.ticket_attributes h.of_ticket i;
  }

module _ (pie : Pie) where
  pub party_round : (p : Party) → proto_party (to_proto_party p) ≡ p
  unfolding proto_party to_proto_party
  party_round p = refl

  pub team_round : (t : Team) → proto_team pie (to_proto_team pie t) ≡ t
  unfolding proto_team to_proto_team
  team_round t = λ i. record t {
    user_ids = pie_inverse_id pie id_to_string id_from_string (λ u. refl) t.user_ids i;
    parties = pie_inverse_id pie to_proto_party proto_party party_round t.parties i;
  }

  map_teams_round :
      (ts : List Team) → proto_match_team_to_match pie (map (to_proto_team pie) ts) ≡ ts
  unfolding proto_match_team_to_match
  map_teams_round [] = refl
  map_teams_round (t ∷ ts) = λ i. team_round t i ∷ map_teams_round ts i

  teams_round :
      (ts : List Team) → proto_match_team_to_match pie (pie.pie_map (to_proto_team pie) ts) ≡ ts
  teams_round ts = rw pie.pie_map_lem (map_teams_round ts)

-- If its attributes have a form in JSON and the attributes of its tickets are maps as JSON
-- gives them, a match that is converted to a message and back is the same, but for the parties
-- of the players of its tickets, which are gone, and its attributes, which are as JSON gives
-- them back.
pub match_round_trip :
    (pie : Pie) (pb : Protobuf)
    → IsProtobuf pb
    → (m : Match) (fields r : Fields) → m.match_attributes ≡ some fields
    → fields_through_json fields ≡ some r
    → All HasJsonAttributes m.tickets
    → proto_match_to_matchfunction_match pie pb (matchfunction_match_to_proto_match pie pb m)
      ≡ record m { tickets = map without_parties m.tickets; match_attributes = some r }
unfolding proto_match_to_matchfunction_match matchfunction_match_to_proto_match
match_round_trip pie pb laws m fields r e json tickets = λ i. record m {
  tickets =
      pie_inverse pie HasJsonAttributes (matchfunction_ticket_to_proto_ticket pie pb)
        (proto_ticket_to_matchfunction_ticket pie pb) without_parties
        (ticket_round_trip pie pb laws) m.tickets tickets i;
  teams = teams_round pie m.teams i;
  match_attributes = attributes i;
}
  where
    attributes : pb.as_map (pb.new_struct (convert_attribute m.match_attributes)) ≡ some r
    attributes = rw e (as_map-convert_attribute pb laws fields r json)
