-- ===== src/Match.antt =====
-- app/objects/match.py: the enumerations, a slot and a match, with the methods that read and write
-- them. Players are named by their ids. What the code enqueues is recorded in `sent`, oldest first,
-- and the timers of `starting` by whether there are any.
pub mod Handlers
pub mod Complete
pub mod Settings
pub mod Membership
pub mod Seats
pub mod Validity
pub mod Requests
pub mod Locks
pub mod Create
pub mod Writes
use bancho_prism_1_0_0_prod.Base.{
  ℕ, zero, suc, ◌-◌, List, [], ◌∷◌, ◌++◌, map, Bool, true, false, ◌&&◌, not, Option, none, some,
  ◌==◌, if◌then◌else◌,
}
use bancho_prism_1_0_0_prod.Base.Int.{ℤ, pos}
use bancho_prism_1_0_0_prod.Utf8.{Bytes, Text}

pub data SlotStatus : Type 0 where
  opened locked not_ready ready no_map playing complete quit : SlotStatus

abbrev pub status_value : SlotStatus → ℕ
status_value opened = 1
status_value locked = 2
status_value not_ready = 4
status_value ready = 8
status_value no_map = 16
status_value playing = 32
status_value complete = 64
status_value quit = 128

-- The comparison of two members.
abbrev pub is_status : SlotStatus → SlotStatus → Bool
is_status a b = status_value a == status_value b

pub data MatchTeams : Type 0 where
  neutral blue red : MatchTeams

abbrev pub team_value : MatchTeams → ℕ
team_value neutral = 0
team_value blue = 1
team_value red = 2

pub data MatchWinConditions : Type 0 where
  score accuracy combo scorev2 : MatchWinConditions

abbrev pub win_condition_value : MatchWinConditions → ℕ
win_condition_value score = 0
win_condition_value accuracy = 1
win_condition_value combo = 2
win_condition_value scorev2 = 3

pub data MatchTeamTypes : Type 0 where
  head_to_head tag_coop team_vs tag_team_vs : MatchTeamTypes

abbrev pub team_type_value : MatchTeamTypes → ℕ
team_type_value head_to_head = 0
team_type_value tag_coop = 1
team_type_value team_vs = 2
team_type_value tag_team_vs = 3

pub record Slot : Type 0 where
  pub player : Option ℕ
  pub status : SlotStatus
  pub team : MatchTeams
  pub mods : ℕ
  pub loaded : Bool
  pub skipped : Bool
  pub last_score_frame : Option Bytes
  pub passed : Bool

abbrev pub new_slot : Slot
new_slot = record {
  player = none;
  status = opened;
  team = neutral;
  mods = 0;
  loaded = false;
  skipped = false;
  last_score_frame = none;
  passed = true;
}

abbrev pub is_none {ℓ} : {A : Type ℓ} → Option A → Bool
is_none none = true
is_none (some _) = false

abbrev pub empty : Slot → Bool
empty s = is_none s.player

abbrev pub copy_from : Slot → Slot → Slot
copy_from s other = record s {
  player = other.player;
  status = other.status;
  team = other.team;
  mods = other.mods;
}

abbrev pub reset : SlotStatus → Slot → Slot
reset new_status s = record new_slot { status = new_status }

-- What is sent, and to whom. `enqueue` has its `lobby` flag and the ids in `immune`.
pub data MatchPacket : Type 0 where
  match_start match_complete match_all_players_loaded match_skip : MatchPacket
  match_score_update : Bytes → MatchPacket
  match_player_failed match_player_skipped : ℕ → MatchPacket

-- What is kept of one player's game: services/multiplayer/match_history.py.
pub record ParticipantScoreFrame : Type 0 where
  pub user_id : ℕ
  pub team : MatchTeams
  pub mods : ℕ
  pub passed : Bool
  pub raw_frame : Bytes

pub data Notice : Type 0 where
  enqueued : MatchPacket → (lobby : Bool) → (immune : List ℕ) → Notice
  state_sent : (lobby : Bool) → Notice
  host_told : ℕ → Notice
  map_selected : (map_id : ℤ) (map_name : Text) → Notice
  team_type_refused : MatchTeamTypes → Notice
  referee_removed : ℕ → Notice
  disposed : (lobby : List ℕ) → Notice
  matchpoints_due : (was_playing : List ℕ) → Notice
  game_persisted : (participants : List ℕ) (score_frames : List ParticipantScoreFrame) → Notice

pub record Match : Type 0 where
  pub id : ℕ
  pub name : Text
  pub passwd : Text
  pub has_public_history : Bool
  pub db_id : Option ℕ
  pub current_game_started_at : Option ℕ
  pub host_id : ℕ
  pub referees : List ℕ
  pub map_id : ℤ
  pub map_md5 : Text
  pub map_name : Text
  pub prev_map_id : ℤ
  pub mods : ℕ
  pub mode : ℕ
  pub freemods : Bool
  pub chat : List ℕ
  pub slots : List Slot
  pub team_type : MatchTeamTypes
  pub win_condition : MatchWinConditions
  pub in_progress : Bool
  pub starting : Bool
  pub seed : ℤ
  pub is_scrimming : Bool
  pub use_pp_scoring : Bool
  pub tourney_clients : List ℕ
  pub sent : List Notice

-- `player is s.player`
abbrev pub holds : ℕ → Slot → Bool
holds player s = elim s.player [ none ↦ false | some p ↦ p == player ]

-- The first slot that passes a test, counted from `idx`.
abbrev pub find_from : (Slot → Bool) → ℕ → List Slot → Option ℕ
find_from test idx [] = none
find_from test idx (s ∷ slots) =
    let rest = find_from test (suc idx) slots in if test s then some idx else rest

unfoldable pub get_slot_id : ℕ → List Slot → Option ℕ
get_slot_id player = find_from (holds player) 0

unfoldable pub get_free : List Slot → Option ℕ
get_free = find_from (λ s. is_status s.status opened) 0

-- A write through a slot object of the list.
abbrev pub modify : ℕ → (Slot → Slot) → List Slot → List Slot
modify i f [] = []
modify zero f (s ∷ slots) = f s ∷ slots
modify (suc i) f (s ∷ slots) = s ∷ modify i f slots

unfoldable pub unready_players : SlotStatus → List Slot → List Slot
unready_players expected =
    map (λ (s : Slot). if is_status s.status expected then record s { status = not_ready } else s)

unfoldable pub reset_players_loaded_status : List Slot → List Slot
reset_players_loaded_status = map (λ (s : Slot). record s { loaded = false; skipped = false })

abbrev pub enqueue : MatchPacket → Bool → List ℕ → Match → Match
enqueue packet lobby immune m = record m { sent = m.sent ++ enqueued packet lobby immune ∷ [] }

abbrev pub enqueue_state : Bool → Match → Match
enqueue_state lobby m = record m { sent = m.sent ++ state_sent lobby ∷ [] }

-- One slot in the loop of `start`.
abbrev pub start_slot : Slot → Slot
start_slot s = record s {
  status =
      if is_none s.player then s.status else if is_status s.status no_map then no_map else playing;
  last_score_frame = none;
  passed = true;
}

-- The ids of the players for whom a test holds, in the order of the slots.
abbrev pub player_ids : (Slot → Bool) → List Slot → List ℕ
player_ids test [] = []
player_ids test (s ∷ slots) =
    let rest = player_ids test slots in
    elim s.player [ none ↦ rest | some p ↦ if test s then p ∷ rest else rest ]

unfoldable pub start : (now : ℕ) → Match → Match
start now m =
    let no_map_ids = player_ids (λ s. is_status s.status no_map) m.slots in
    enqueue_state true (
      enqueue match_start false no_map_ids (record m {
        slots = map start_slot m.slots;
        in_progress = true;
        current_game_started_at = some now;
      }))

-- The members of Mods that change a map's speed, and every other one of the 31.
abbrev pub speed_changing_mods : ℕ
speed_changing_mods = 832

abbrev pub other_mods : ℕ
other_mods = 2147483647 - speed_changing_mods
