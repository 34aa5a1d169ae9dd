-- ===== src/Convert/Parties.antt =====
-- The parties of a ticket that was received.
use matchmaking_function_grp.Prelude.{◌≡◌, refl, ap, ◌∙◌, ◌≢◌, String, List, [], ◌∷◌, ◌++◌, map}
use mathlib.Core.List.{Perm, append-nil, append_assoc, perm-replicate}
use text.Mathlib.TextEquality.{IsScalar-prop}
use matchmaking_function_grp.External.{Pie, Protobuf}
use matchmaking_function_grp.Parties.{
  PartyMap, append_user, group_players, range_parties, player_data_to_parties,
}
use matchmaking_function_grp.Proto
use matchmaking_function_grp.Convert.FromProto.{proto_player, proto_ticket_to_matchfunction_ticket}

PartyEntry-IsSet : IsSet (String × List String)
PartyEntry-IsSet = hlevel (IsScalar-prop)

perm_singleton :
    (entry : String × List String) (entries : PartyMap)
    → Perm entries (entry ∷ [])
    → entries ≡ entry ∷ []
perm_singleton entry entries p = (perm-replicate PartyEntry-IsSet 1 entry).0 p

module _ (pie : Pie) (pb : Protobuf) where
  abbrev ids : List (Proto.PlayerData pb.Struct pb.Timestamp) → List String
  ids ps = map (λ p. p.player_id) ps

  group_players-received :
      (ps : List (Proto.PlayerData pb.Struct pb.Timestamp)) (users : List String)
      → group_players (map (proto_player pie pb) ps) (("", users) ∷ []) ≡ ("", users ++ ids ps) ∷ []
  unfolding group_players append_user proto_player
  group_players-received [] users = rw append-nil
  group_players-received (p ∷ ps) users =
      group_players-received ps (users ++ p.player_id ∷ [])
      ∙ ap (λ us. ("", us) ∷ []) (append_assoc users (p.player_id ∷ []) (ids ps))

  -- For a ticket message with players, the players that the server makes of it are one party,
  -- with an empty ID and all of the players, whatever the order in which Go visits the map.
  pub player_data_to_parties-received :
      (order : PartyMap → PartyMap) (ticket : Proto.Ticket pb.Struct pb.Timestamp)
      → ((entries : PartyMap) → Perm (order entries) entries)
      → ticket.players ≢ []
      → player_data_to_parties order (proto_ticket_to_matchfunction_ticket pie pb ticket).players
        ≡ record {
          party_id = "";
          user_ids =
              map (λ (p : Proto.PlayerData pb.Struct pb.Timestamp). p.player_id) ticket.players;
        }
          ∷ []
  unfolding player_data_to_parties range_parties proto_ticket_to_matchfunction_ticket group_players
      append_user proto_player
  player_data_to_parties-received order ticket shuffles some_players =
      rw
        (
          pie.pie_map_lem (proto_player pie pb) ticket.players,
          grouped ticket.players some_players,
          perm_singleton _ _ (shuffles (("", ids ticket.players) ∷ [])),
        )
        refl
    where
      grouped :
          (ps : List (Proto.PlayerData pb.Struct pb.Timestamp))
          → ps ≢ []
          → group_players (map (proto_player pie pb) ps) [] ≡ ("", ids ps) ∷ []
      grouped [] h = absurd (h refl)
      grouped (p ∷ ps) h = group_players-received ps (p.player_id ∷ [])
