-- ===== src/Parties/Grouping.antt =====
-- What `PlayerDataToParties` gives, whatever order Go visits the map in.
use matchmaking_function_grp.Prelude.{
  String, ◌≡◌, refl, sym, ◌∙◌, ap, true, false, inl, inr, Bool-cases, List, [], ◌∷◌, ◌++◌, map,
  str_eq, eq_iff, arith, if◌then◌else◌,
}
use mathlib.Core.HLevel.{hedberg, ⊥_prop}
use mathlib.Core.Logic.Or
use mathlib.Core.Logic.{◌∨₁◌, ∨₁_prop, ∥∥₁_elim}
use mathlib.Core.List.Perm
use mathlib.Core.List.{
  Mem, Nodup, Perm, Mem-prop, not-mem-nil, mem-cons, mem-cons_self, mem-cons_of_mem, mem-cast,
  Nodup-cons, Nodup-nil, mem-map_of_mem, exists_of_mem-map, append-nil, append_assoc,
}
use matchmaking_function_grp.PlayerData.{PlayerData}
use matchmaking_function_grp.DataObjects.{Party}
use matchmaking_function_grp.Parties.Defs.{
  PartyMap, append_user, group_players, range_parties, player_data_to_parties,
}

-- The players of one party, in the order of the list.
abbrev pub users_of : String → List PlayerData → List String
users_of id [] = []
users_of id (player ∷ players) =
    if str_eq player.party_id id
    then player.player_id ∷ users_of id players
    else users_of id players

abbrev keys : PartyMap → List String
keys entries = map (λ e. e.0) entries

-- `mapParty[id]`, which is nil for a missing key
abbrev entry : String → PartyMap → List String
entry id [] = []
entry id ((key, users) ∷ entries) = if str_eq key id then users else entry id entries

entry-append_user :
    (id key user : String) (entries : PartyMap)
    → entry id (append_user key user entries)
      ≡ (if str_eq key id then entry id entries ++ user ∷ [] else entry id entries)
unfolding append_user
entry-append_user id key user [] = refl
entry-append_user id key user ((k, users) ∷ entries) =
    ground (arith, eq_iff k key, eq_iff k id, eq_iff key id, entry-append_user id key user entries)

entry-group_players :
    (id : String) (players : List PlayerData) (entries : PartyMap)
    → entry id (group_players players entries) ≡ entry id entries ++ users_of id players
unfolding group_players
entry-group_players id [] entries = sym (append-nil _)
entry-group_players id (p ∷ ps) entries = elim (Bool-cases (str_eq p.party_id id)) [
  | inl same ↦
      rw
        (
          entry-group_players id ps (append_user p.party_id p.player_id entries),
          entry-append_user id p.party_id p.player_id entries,
          same,
        )
        (append_assoc (entry id entries) (p.player_id ∷ []) (users_of id ps))
  | inr other ↦ rw (
    entry-group_players id ps (append_user p.party_id p.player_id entries),
    entry-append_user id p.party_id p.player_id entries,
    other,
  )
]

module _ (key user k : String) (users : List String) (entries : PartyMap) where
  keys-append_user_hit :
      str_eq k key ≡ true → keys (append_user key user ((k, users) ∷ entries)) ≡ k ∷ keys entries
  unfolding append_user
  keys-append_user_hit h = rw h

  keys-append_user_miss :
      str_eq k key ≡ false
      → keys (append_user key user ((k, users) ∷ entries)) ≡ k ∷ keys (append_user key user entries)
  unfolding append_user
  keys-append_user_miss h = rw h

keys-append_user :
    (x key user : String) (entries : PartyMap)
    → Mem x (keys (append_user key user entries))
    → (x ≡ key) ∨₁ Mem x (keys entries)
keys-append_user x key user [] m = unfold append_user in mem-cons.0 m
keys-append_user x key user ((k, users) ∷ entries) m = elim (Bool-cases (str_eq k key)) [
  | inl hit ↦ Or.inr (rw (keys-append_user_hit key user k users entries hit) at m)
  | inr miss ↦
      Or.elim ∨₁_prop (mem-cons.0 (rw (keys-append_user_miss key user k users entries miss) at m))
        (λ e. Or.inr (mem-cast e mem-cons_self))
        (λ later.
          Or.elim ∨₁_prop (keys-append_user x key user entries later) (λ e. Or.inl e)
            (λ old. Or.inr (mem-cons_of_mem k old)))
]

append_user-keys :
    (x key user : String) (entries : PartyMap)
    → Mem x (keys entries)
    → Mem x (keys (append_user key user entries))
append_user-keys x key user [] m = absurd (not-mem-nil m)
append_user-keys x key user ((k, users) ∷ entries) m = elim (Bool-cases (str_eq k key)) [
  | inl hit ↦ rw (keys-append_user_hit key user k users entries hit) m
  | inr miss ↦ rw (keys-append_user_miss key user k users entries miss) (
      Or.elim Mem-prop (mem-cons.0 m) (λ e. mem-cast e mem-cons_self)
        (λ old. mem-cons_of_mem k (append_user-keys x key user entries old)))
]

append_user-key :
    (key user : String) (entries : PartyMap) → Mem key (keys (append_user key user entries))
append_user-key key user [] = unfold append_user in mem-cons_self
append_user-key key user ((k, users) ∷ entries) = elim (Bool-cases (str_eq k key)) [
  | inl hit ↦
      rw (keys-append_user_hit key user k users entries hit)
        (mem-cast (sym ((eq_iff k key).0 hit)) mem-cons_self)
  | inr miss ↦
      rw (keys-append_user_miss key user k users entries miss)
        (mem-cons_of_mem k (append_user-key key user entries))
]

differ : (k key : String) → str_eq k key ≡ false → k ≡ key → ⊥
differ k key h e = cc ((eq_iff k key).1 e)

append_user-Nodup :
    (key user : String) (entries : PartyMap)
    → Nodup (keys entries)
    → Nodup (keys (append_user key user entries))
append_user-Nodup key user [] h = unfold append_user in Nodup-cons.1 (not-mem-nil, Nodup-nil)
append_user-Nodup key user ((k, users) ∷ entries) h = elim (Bool-cases (str_eq k key)) [
  | inl hit ↦ rw (keys-append_user_hit key user k users entries hit) h
  | inr miss ↦
      let (fresh, rest) = Nodup-cons.0 h in
      rw (keys-append_user_miss key user k users entries miss) (
        Nodup-cons.1 (
          λ m. Or.elim ⊥_prop (keys-append_user k key user entries m) (differ k key miss) fresh,
          append_user-Nodup key user entries rest,
        ))
]

group_players-Nodup :
    (players : List PlayerData) (entries : PartyMap)
    → Nodup (keys entries)
    → Nodup (keys (group_players players entries))
unfolding group_players
group_players-Nodup [] entries h = h
group_players-Nodup (p ∷ ps) entries h =
    group_players-Nodup ps (append_user p.party_id p.player_id entries)
      (append_user-Nodup p.party_id p.player_id entries h)

group_players-old :
    (x : String) (players : List PlayerData) (entries : PartyMap)
    → Mem x (keys entries)
    → Mem x (keys (group_players players entries))
unfolding group_players
group_players-old x [] entries m = m
group_players-old x (p ∷ ps) entries m =
    group_players-old x ps (append_user p.party_id p.player_id entries)
      (append_user-keys x p.party_id p.player_id entries m)

group_players-new :
    (q : PlayerData) (players : List PlayerData) (entries : PartyMap)
    → Mem q players
    → Mem q.party_id (keys (group_players players entries))
unfolding group_players
group_players-new q [] entries m = absurd (not-mem-nil m)
group_players-new q (p ∷ ps) entries m =
    Or.elim Mem-prop (mem-cons.0 m)
      (λ e. group_players-old q.party_id ps (append_user p.party_id p.player_id entries) (
        mem-cast (ap (λ (r : PlayerData). r.party_id) e)
          (append_user-key p.party_id p.player_id entries)))
      (group_players-new q ps (append_user p.party_id p.player_id entries))

String-discrete : Discrete String
String-discrete a b = elim (Bool-cases (str_eq a b)) [
  | inl same ↦ yes ((eq_iff a b).0 same)
  | inr other ↦ no (differ a b other)
]

users_set : IsSet (List String)
users_set = hlevel (hedberg String-discrete)

entry_head :
    (id : String) (users : List String) (k : String) (us : List String) (entries : PartyMap)
    → Nodup (k ∷ keys entries)
    → Mem (id, users) ((k, us) ∷ entries)
    → k ≡ id
    → us ≡ users
entry_head id users k us entries h m same =
    Or.elim (users_set us users) (mem-cons.0 m)
      (λ e. sym (ap (λ (p : String × List String). p.1) e))
      (λ later. absurd (
        (Nodup-cons.0 h).0
          (mem-cast same (mem-map_of_mem (λ (p : String × List String). p.0) later))))

entry-mem :
    (id : String) (users : List String) (entries : PartyMap)
    → Nodup (keys entries)
    → Mem (id, users) entries
    → entry id entries ≡ users
entry-mem id users [] h m = absurd (not-mem-nil m)
entry-mem id users ((k, us) ∷ entries) h m = elim (Bool-cases (str_eq k id)) [
  | inl same ↦ rw same (entry_head id users k us entries h m ((eq_iff k id).0 same))
  | inr other ↦ rw other (
      entry-mem id users entries (Nodup-cons.0 h).1 (
        Or.elim Mem-prop (mem-cons.0 m)
          (λ e. absurd (differ k id other (sym (ap (λ (p : String × List String). p.0) e))))
          (λ later. later)))
]

range_parties-map :
    (entries : PartyMap)
    → range_parties entries ≡ map (λ e. record { party_id = e.0; user_ids = e.1 }) entries
unfolding range_parties
range_parties-map [] = refl
range_parties-map ((k, us) ∷ entries) = rw (range_parties-map entries)

ids-range_parties :
    (entries : PartyMap) → map (λ p. p.party_id) (range_parties entries) ≡ keys entries
unfolding range_parties
ids-range_parties [] = refl
ids-range_parties ((k, us) ∷ entries) = ap (◌∷◌ k) (ids-range_parties entries)

-- The parties have different IDs, each holds exactly the users of its ID, in the order of the
-- players, and each player has a party.
pub record IsGrouping (players : List PlayerData) (parties : List Party) : Type 0 where
  pub distinct : Nodup (map (λ (p : Party). p.party_id) parties)
  pub members :
      (party : Party) → Mem party parties → party.user_ids ≡ users_of party.party_id players
  pub complete :
      (q : PlayerData) → Mem q players → Mem q.party_id (map (λ (p : Party). p.party_id) parties)

-- In whatever order Go visits the map, the parties that `PlayerDataToParties` returns have
-- different IDs, each holds exactly the users of the players with its ID, in the order of the
-- players, and the party ID of each player is among them.
pub player_data_to_parties-IsGrouping :
    (order : PartyMap → PartyMap) (players : List PlayerData)
    → ((entries : PartyMap) → Perm (order entries) entries)
    → IsGrouping players (player_data_to_parties order players)
unfolding player_data_to_parties
player_data_to_parties-IsGrouping order players shuffles =
    let entries = group_players players [] in
    let same = Perm.map (λ (e : String × List String). e.0) (shuffles entries) in
    let once = group_players-Nodup players [] Nodup-nil in
    record {
      distinct = rw ids-range_parties (Perm.nodup (Perm.symm same) once);
      members = λ party m.
          ∥∥₁_elim (exists_of_mem-map (rw range_parties-map at m)) (users_set _ _)
            λ (e, listed, made). rw (← made) (
              sym (entry-mem e.0 e.1 entries once (Perm.subset (shuffles entries) e listed))
              ∙ entry-group_players e.0 players []);
      complete = λ q m.
          rw ids-range_parties
            (Perm.subset (Perm.symm same) q.party_id (group_players-new q players [] m));
    }
