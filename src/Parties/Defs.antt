-- ===== src/Parties/Defs.antt =====
-- `PlayerDataToParties`: players grouped by the ID of their party. The Go map is the list of its
-- entries. `order` is the order in which `range` visits them, which Go leaves open.
use matchmaking_function_grp.Prelude.{String, List, [], ◌∷◌, ◌++◌, str_eq, if◌then◌else◌}
use matchmaking_function_grp.PlayerData.{PlayerData}
use matchmaking_function_grp.DataObjects.{Party}

abbrev pub PartyMap : Type 0
PartyMap = List (String × List String)

-- `mapParty[id] = append(mapParty[id], user)`
unfoldable pub append_user : String → String → PartyMap → PartyMap
append_user id user [] = (id, user ∷ []) ∷ []
append_user id user ((key, users) ∷ entries) =
    if str_eq key id
    then (key, users ++ user ∷ []) ∷ entries
    else (key, users) ∷ append_user id user entries

unfoldable pub group_players : List PlayerData → PartyMap → PartyMap
group_players [] entries = entries
group_players (player ∷ players) entries =
    group_players players (append_user player.party_id player.player_id entries)

unfoldable pub range_parties : PartyMap → List Party
range_parties [] = []
range_parties ((id, users) ∷ entries) =
    record { party_id = id; user_ids = users } ∷ range_parties entries

unfoldable pub player_data_to_parties : (PartyMap → PartyMap) → List PlayerData → List Party
player_data_to_parties order players = range_parties (order (group_players players []))
