-- ===== src/Match/Create.antt =====
-- The CREATE_MATCH handler of app/api/domains/cho.py, with `Matches.get_free` of
-- app/objects/collections.py. The match's chat is made empty; what the bot says, and the
-- recording of the match, are left out.
use bancho_prism_1_0_0_prod.Base.{
  ℕ, suc, List, [], ◌∷◌, ◌++◌, Bool, true, false, not, Option, none, some, if◌then◌else◌, ltb, set,
  replicate, Result, ok, err, value_error,
}
use bancho_prism_1_0_0_prod.Base.Int.{ℤ, pos, negsuc}
use bancho_prism_1_0_0_prod.Utf8.{Text}
use bancho_prism_1_0_0_prod.Packets.MatchData.{MultiplayerMatch}
use bancho_prism_1_0_0_prod.Match.{Match, new_slot, is_none, MatchTeamTypes, MatchWinConditions}
use bancho_prism_1_0_0_prod.Match.Handlers.{mods_of_int}
use bancho_prism_1_0_0_prod.Match.Settings.{validate_match_data, team_type_of, win_condition_of}
use bancho_prism_1_0_0_prod.Match.Membership.{
  Player, Room, Reply, match_join_fail, not_while_restricted, not_while_silenced, same_text,
  join_match,
}

-- What the handler reaches: the player, the session's matches and the players in the lobby channel.
pub record Lobby : Type 0 where
  pub creator : Player
  pub matches : List (Option Match)
  pub lobby : Option (List ℕ)

unfoldable pub first_free : List (Option Match) → Option ℕ
first_free [] = none
first_free (none ∷ matches) = some 0
first_free (some m ∷ matches) = elim (first_free matches) [ none ↦ none | some i ↦ some (suc i) ]

-- "//private"
abbrev pub private_suffix : Text
private_suffix = 47 ∷ 47 ∷ 112 ∷ 114 ∷ 105 ∷ 118 ∷ 97 ∷ 116 ∷ 101 ∷ []

-- What stands before the suffix, if the text ends in it.
unfoldable pub before_suffix : (suffix s : Text) → Option Text
before_suffix suffix [] = if same_text [] suffix then some [] else none
before_suffix suffix (c ∷ s) =
    let rest = before_suffix suffix s in
    if same_text (c ∷ s) suffix
    then some []
    else elim rest [ none ↦ none | some front ↦ some (c ∷ front) ]

abbrev or_else {ℓ} : {A : Type ℓ} → A → Option A → A
or_else a none = a
or_else a (some b) = b

-- GameMode(n)
abbrev pub mode_of : ℤ → Option ℕ
mode_of (pos n) = if ltb n 12 then some n else none
mode_of (negsuc n) = none

-- A new Match. The host's id is the player's: the data is validated.
abbrev pub made :
    (id host mode : ℕ) → MatchWinConditions → MatchTeamTypes → MultiplayerMatch → Match
made id host mode win_condition team_type d = record {
  id = id;
  name = d.name;
  passwd = or_else d.passwd (before_suffix private_suffix d.passwd);
  has_public_history = is_none (before_suffix private_suffix d.passwd);
  db_id = none;
  current_game_started_at = none;
  host_id = host;
  referees = [];
  map_id = d.map_id;
  map_md5 = d.map_md5;
  map_name = d.map_name;
  prev_map_id = pos 0;
  mods = mods_of_int d.mods;
  mode = mode;
  freemods = d.freemods;
  chat = [];
  slots = replicate 16 new_slot;
  team_type = team_type;
  win_condition = win_condition;
  in_progress = false;
  starting = false;
  seed = d.seed;
  is_scrimming = false;
  use_pp_scoring = false;
  tourney_clients = [];
  sent = [];
}

-- The match, unless one of its numbers is no member of its enumeration.
abbrev pub assemble :
    (id host : ℕ)
    → MultiplayerMatch
    → Option ℕ
    → Option MatchWinConditions
    → Option MatchTeamTypes
    → Option Match
assemble id host d none wins teams = none
assemble id host d (some mode) none teams = none
assemble id host d (some mode) (some win_condition) none = none
assemble id host d (some mode) (some win_condition) (some team_type) =
    some (made id host mode win_condition team_type d)

unfoldable pub new_match : (id host : ℕ) → MultiplayerMatch → Option Match
new_match id host d =
    assemble id host d (mode_of d.mode) (win_condition_of d.win_condition)
      (team_type_of d.team_type)

abbrev refuse : List Reply → Lobby → Result (Unit {0}) × Lobby
refuse replies l =
    (ok tt, record l { creator = record l.creator { replies = l.creator.replies ++ replies } })

-- The creator joins the match that is now in the list.
abbrev pub settle : (id : ℕ) → Lobby → Result Bool × Room → Result (Unit {0}) × Lobby
settle id l (result, r) = (
  elim result [ ok joined ↦ ok tt | err e ↦ err e ],
  record { creator = r.player; matches = set l.matches id (some r.match); lobby = r.lobby },
)

unfoldable pub match_create : (ℕ → Bool) → MultiplayerMatch → Lobby → Result (Unit {0}) × Lobby
match_create online d l =
    if not (validate_match_data d l.creator.id)
    then (ok tt, l)
    else if l.creator.restricted
    then refuse (match_join_fail ∷ not_while_restricted ∷ []) l
    else if l.creator.silenced
    then refuse (match_join_fail ∷ not_while_silenced ∷ []) l
    else elim (first_free l.matches) [
      | none ↦ refuse (match_join_fail ∷ []) l
      | some id ↦ elim (new_match id l.creator.id d) [
        | none ↦ (err value_error, l)
        | some m ↦ settle id l (
            join_match online d.passwd
              (record { player = l.creator; match = m; lobby = l.lobby; listed = true }))
      ]
    ]
