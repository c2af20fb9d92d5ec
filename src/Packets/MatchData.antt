-- ===== src/Packets/MatchData.antt =====
-- The match as a client sends it: `MultiplayerMatch` and `read_match` of app/packets.py.
use bancho_prism_1_0_0_prod.Base.{
  ℕ, zero, suc, ◌/◌, ◌%◌, List, [], ◌∷◌, Bool, false, not, ◌==◌, if◌then◌else◌,
}
use bancho_prism_1_0_0_prod.Base.Int.{ℤ, pos, negsuc}
use bancho_prism_1_0_0_prod.Utf8.{Text}
use bancho_prism_1_0_0_prod.Packets.Reader.{
  Reader, pure, ◌>>=◌, read_i8, read_i16, read_i32, read_string,
}

pub record MultiplayerMatch : Type 0 where
  pub id : ℤ
  pub in_progress : Bool
  pub powerplay : ℤ
  pub mods : ℤ
  pub name : Text
  pub passwd : Text
  pub map_name : Text
  pub map_id : ℤ
  pub map_md5 : Text
  pub slot_statuses : List ℤ
  pub slot_teams : List ℤ
  pub slot_ids : List ℤ
  pub host_id : ℤ
  pub mode : ℤ
  pub win_condition : ℤ
  pub team_type : ℤ
  pub freemods : Bool
  pub slot_mods : List ℤ
  pub seed : ℤ

-- `status & 124 != 0`: one of bits 2 to 6 is set, which for a negative number are those that its
-- complement has clear.
unfoldable pub has_player_bits : ℤ → Bool
has_player_bits (pos n) = not (n / 4 % 32 == 0)
has_player_bits (negsuc n) = not (n / 4 % 32 == 31)

abbrev pub is_one : ℤ → Bool
is_one (pos n) = n == 1
is_one (negsuc n) = false

-- `read_i8() == 1`
unfoldable pub read_flag : Reader Bool
read_flag = do x ← read_i8; pure (is_one x)

-- [read() for _ in range(n)]
unfoldable pub read_times {ℓ} : {A : Type ℓ} → ℕ → Reader A → Reader (List A)
read_times zero read = pure []
read_times (suc n) read = do x ← read; xs ← read_times n read; pure (x ∷ xs)

unfoldable pub read_slot_ids : List ℤ → Reader (List ℤ)
read_slot_ids [] = pure []
read_slot_ids (status ∷ statuses) =
    let rest = read_slot_ids statuses in
    if has_player_bits status then (do i ← read_i32; ids ← rest; pure (i ∷ ids)) else rest

unfoldable pub read_slot_mods : Bool → Reader (List ℤ)
unfolding read_times
read_slot_mods freemods = if freemods then read_times 16 read_i32 else pure []

unfoldable pub read_match : Reader MultiplayerMatch
read_match = do
  id ← read_i16
  in_progress ← read_flag
  powerplay ← read_i8
  mods ← read_i32
  name ← read_string
  passwd ← read_string
  map_name ← read_string
  map_id ← read_i32
  map_md5 ← read_string
  slot_statuses ← read_times 16 read_i8
  slot_teams ← read_times 16 read_i8
  slot_ids ← read_slot_ids slot_statuses
  host_id ← read_i32
  mode ← read_i8
  win_condition ← read_i8
  team_type ← read_i8
  freemods ← read_flag
  slot_mods ← read_slot_mods freemods
  seed ← read_i32
  pure (record {
    id = id;
    in_progress = in_progress;
    powerplay = powerplay;
    mods = mods;
    name = name;
    passwd = passwd;
    map_name = map_name;
    map_id = map_id;
    map_md5 = map_md5;
    slot_statuses = slot_statuses;
    slot_teams = slot_teams;
    slot_ids = slot_ids;
    host_id = host_id;
    mode = mode;
    win_condition = win_condition;
    team_type = team_type;
    freemods = freemods;
    slot_mods = slot_mods;
    seed = seed;
  })
