-- ===== src/Match/Settings.antt =====
-- MATCH_CHANGE_SETTINGS and MATCH_CHANGE_PASSWORD of app/api/domains/cho.py, stage by stage: what is
-- written before a stage raises stays written. `bmap` is what `Beatmap.from_md5` returned for the
-- map of the packet, and `host_mode` the vanilla mode that the host is playing.
use Prim.Native.Nat.{bit_and, bit_or}
use bancho_prism_1_0_0_prod.Base.{
  ℕ, List, [], ◌∷◌, ◌++◌, map, Bool, true, false, ◌&&◌, not, Option, none, some, ltb, leb, ◌==◌,
  if◌then◌else◌, get_elem?, length, ok, err, assertion_error, value_error, index_error,
}
use bancho_prism_1_0_0_prod.Base.Int.{ℤ, pos, negsuc}
use bancho_prism_1_0_0_prod.Utf8.{Text}
use bancho_prism_1_0_0_prod.Packets.MatchData.{MultiplayerMatch}
use bancho_prism_1_0_0_prod.Match.{
  Match, Slot, MatchTeams, neutral, red, MatchTeamTypes, head_to_head, tag_coop, team_vs,
  tag_team_vs, team_type_value, MatchWinConditions, score, accuracy, combo, scorev2,
  win_condition_value, ready, is_none, get_slot_id, unready_players, enqueue_state, map_selected,
  team_type_refused, speed_changing_mods, other_mods,
}
use bancho_prism_1_0_0_prod.Match.Handlers.{Outcome, done, with_host}

-- What the handler takes from a `Beatmap`.
pub record Bmap : Type 0 where
  pub id : ℕ
  pub md5 : Text
  pub full_name : Text

abbrev pub max_match_name_length : ℕ
max_match_name_length = 50

abbrev pub is_pos : ℕ → ℤ → Bool
is_pos n (pos k) = k == n
is_pos n (negsuc k) = false

abbrev pub is_minus_one : ℤ → Bool
is_minus_one (pos n) = false
is_minus_one (negsuc n) = n == 0

abbrev pub same_int : ℤ → ℤ → Bool
same_int (pos n) (pos k) = n == k
same_int (pos n) (negsuc k) = false
same_int (negsuc n) (pos k) = false
same_int (negsuc n) (negsuc k) = n == k

unfoldable pub validate_match_data : MultiplayerMatch → (expected_host_id : ℕ) → Bool
validate_match_data d expected_host_id =
    is_pos expected_host_id d.host_id && leb (length d.name) max_match_name_length

-- The next stage, unless this one raised.
infixl 5 ◌then_do◌
unfoldable pub ◌then_do◌ : Outcome → (Match → Outcome) → Outcome
o then_do k = elim o.0 [ ok _ ↦ k o.1 | err e ↦ (err e, o.1) ]

-- A write to the slots of the players in the match.
abbrev pub each_player : (Slot → Slot) → List Slot → List Slot
each_player f = map (λ s. if is_none s.player then s else f s)

abbrev pub with_mods : ℕ → Slot → Slot
with_mods mods s = record s { mods = mods }

unfoldable pub change_freemods : MultiplayerMatch → Match → Outcome
change_freemods d m =
    if d.freemods
    then (if m.freemods
        then done m
        else done (record m {
          freemods = true;
          slots = each_player (with_mods (bit_and m.mods other_mods)) m.slots;
          mods = bit_and m.mods speed_changing_mods;
        }))
    else if m.freemods
    then elim (get_slot_id m.host_id m.slots) [
      | none ↦ (err assertion_error, record m { freemods = false })
      | some i ↦ elim (get_elem? m.slots i) [
        | none ↦ (err assertion_error, record m { freemods = false })
        | some host ↦ done (record m {
          freemods = false;
          mods = bit_or (bit_and m.mods speed_changing_mods) host.mods;
          slots = each_player (with_mods 0) m.slots;
        })
      ]
    ]
    else done m

-- GameMode(n)
abbrev game_mode : ℤ → Match → Outcome
game_mode (pos n) m = if ltb n 12 then done (record m { mode = n }) else (err value_error, m)
game_mode (negsuc n) m = (err value_error, m)

abbrev announce : MultiplayerMatch → Match → Match
announce d m =
    if same_int m.prev_map_id d.map_id
    then m
    else record m { sent = m.sent ++ map_selected d.map_id d.map_name ∷ [] }

unfoldable pub change_map :
    (ℕ → Bool) → (host_mode : ℕ) → Option Bmap → MultiplayerMatch → Match → Outcome
unfolding unready_players
change_map online host_mode bmap d m =
    if is_minus_one d.map_id
    then done (record m {
      slots = unready_players ready m.slots;
      prev_map_id = m.map_id;
      map_id = negsuc 0;
      map_md5 = [];
      map_name = [];
    })
    else if is_minus_one m.map_id
    then elim bmap [
      | some b ↦
          let m' = record (announce d m) {
            map_id = pos b.id;
            map_md5 = b.md5;
            map_name = b.full_name;
          } in
          with_host online m' (done (record m' { mode = host_mode }))
      | none ↦
          game_mode d.mode (record (announce d m) {
            map_id = d.map_id;
            map_md5 = d.map_md5;
            map_name = d.map_name;
          })
    ]
    else done m

abbrev all_team_types : List MatchTeamTypes
all_team_types = head_to_head ∷ tag_coop ∷ team_vs ∷ tag_team_vs ∷ []

-- MatchTeamTypes(z)
abbrev pub team_type_of : ℤ → Option MatchTeamTypes
team_type_of (pos n) = get_elem? all_team_types n
team_type_of (negsuc n) = none

-- A tuple of four indexed as Python does, from the end for a negative index.
abbrev pub team_type_at : ℤ → Option MatchTeamTypes
team_type_at (pos n) = get_elem? all_team_types n
team_type_at (negsuc n) = get_elem? (tag_team_vs ∷ team_vs ∷ tag_coop ∷ head_to_head ∷ []) n

abbrev pub default_team : ℤ → MatchTeams
default_team (pos n) = if ltb n 2 then neutral else red
default_team (negsuc n) = red

abbrev pub with_team : MatchTeams → Slot → Slot
with_team team s = record s { team = team }

unfoldable pub change_team_type : MultiplayerMatch → Match → Outcome
change_team_type d m =
    if is_pos (team_type_value m.team_type) d.team_type
    then done m
    else if m.is_scrimming
    then elim (team_type_at d.team_type) [
      | none ↦ (err index_error, m)
      | some t ↦ done (record m { sent = m.sent ++ team_type_refused t ∷ [] })
    ]
    else (let m' = record m {
      slots = each_player (with_team (default_team d.team_type)) m.slots;
    } in
        elim (team_type_of d.team_type) [
          | none ↦ (err value_error, m')
          | some t ↦ done (record m' { team_type = t })
        ])

-- MatchWinConditions(z)
abbrev pub win_condition_of : ℤ → Option MatchWinConditions
win_condition_of (pos n) = get_elem? (score ∷ accuracy ∷ combo ∷ scorev2 ∷ []) n
win_condition_of (negsuc n) = none

unfoldable pub change_win_condition : MultiplayerMatch → Match → Outcome
change_win_condition d m =
    if is_pos (win_condition_value m.win_condition) d.win_condition
    then done m
    else (let m' = record m { use_pp_scoring = false } in
        elim (win_condition_of d.win_condition) [
          | none ↦ (err value_error, m')
          | some c ↦ done (record m' { win_condition = c })
        ])

unfoldable pub apply_settings :
    (ℕ → Bool) → (host_mode : ℕ) → Option Bmap → MultiplayerMatch → Match → Outcome
apply_settings online host_mode bmap d m =
    change_freemods d m
    then_do change_map online host_mode bmap d
    then_do change_team_type d
    then_do change_win_condition d
    then_do (λ m'. done (enqueue_state true (record m' { name = d.name })))

unfoldable pub match_change_settings :
    (ℕ → Bool) → (host_mode : ℕ) → Option Bmap → MultiplayerMatch → (player : ℕ) → Match → Outcome
match_change_settings online host_mode bmap d player m =
    if not (validate_match_data d player)
    then done m
    else with_host online m
        (if player == m.host_id then apply_settings online host_mode bmap d m else done m)

unfoldable pub match_change_password :
    (ℕ → Bool) → MultiplayerMatch → (player : ℕ) → Match → Outcome
match_change_password online d player m =
    if not (validate_match_data d player)
    then done m
    else with_host online m (
        if player == m.host_id
        then done (enqueue_state true (record m { passwd = d.passwd }))
        else done m)
