-- ===== src/Examples/Parties.antt =====
-- `PlayerDataToParties` on a small input.
use mathlib.Core.List.{reverse}
use mathlib.Core.List.Permᴰ
use matchmaking_function_grp.Prelude.{◌≡◌, refl, List, [], ◌∷◌}
use matchmaking_function_grp.PlayerData.{PlayerData}
use matchmaking_function_grp.Parties.{
  append_user, group_players, range_parties, player_data_to_parties,
}
use matchmaking_function_grp.Parties.Grouping.{IsGrouping, player_data_to_parties-IsGrouping}
use matchmaking_function_grp.Examples.Data.{player}

abbrev guests : List PlayerData
guests = player "a" "red" ∷ player "b" "blue" ∷ player "c" "red" ∷ []

two_parties :
    player_data_to_parties (λ m. m) guests
    ≡ record { party_id = "red"; user_ids = "a" ∷ "c" ∷ [] }
      ∷ record { party_id = "blue"; user_ids = "b" ∷ [] }
      ∷ []
unfolding player_data_to_parties range_parties group_players append_user
two_parties = refl

player_data_to_parties-IsGrouping_example :
    IsGrouping guests (player_data_to_parties reverse guests)
player_data_to_parties-IsGrouping_example =
    player_data_to_parties-IsGrouping reverse guests (λ m. ∣ Permᴰ.reverse m ∣₁)
