-- ===== src/PlayerData.antt =====
-- pkg/playerdata/player.go
use matchmaking_function_grp.Prelude.{String}
use matchmaking_function_grp.Value.{Attributes}

-- `type ID string`
abbrev pub PlayerId : Type 0
PlayerId = String

pub record PlayerData : Type 0 where
  pub player_id : PlayerId
  pub party_id : String
  pub attributes : Attributes

-- The conversions between `ID` and `string` do nothing to the text.
abbrev pub id_to_string : PlayerId → String
id_to_string u = u

abbrev pub id_from_string : String → PlayerId
id_from_string u = u

abbrev pub to_id : PlayerData → PlayerId
to_id p = p.player_id

abbrev pub to_id_string : PlayerData → String
to_id_string p = p.player_id
