-- ===== src/Replay/Build.antt =====
-- `build_full_replay` and `fetch_raw_replay` of app/services/replays.py, over the visibility rule of
-- app/services/visibility.py. `file` is what the replay's path holds, `row` what
-- `fetch_replay_header` answers, with `ticks` for `int(row.play_time.timestamp() * 1e7)`; `md5` stands
-- for the hexadecimal digest of hashlib.md5. The name of the file is not modelled.
use Prim.Native.Nat.{bit_and}
use bancho_prism_1_0_0_prod.Base.{
  ℕ, ◌+◌, ◌-◌, List, [], ◌∷◌, ◌++◌, Bool, true, false, not, ◌||◌, Option, none, some, ltb, ◌==◌,
  if◌then◌else◌, length, Result, ok, ◌>>=◌,
}
use bancho_prism_1_0_0_prod.Base.Int.{ℤ, pos, negsuc}
use bancho_prism_1_0_0_prod.Utf8.{Bytes, Text, encode}
use bancho_prism_1_0_0_prod.GameMode.{game_mode, as_vanilla}
use bancho_prism_1_0_0_prod.Match.Membership.{has_priv, staff_priv}
use bancho_prism_1_0_0_prod.Packets.Writer.{write_string, write_all, pack, pack_signed}
use bancho_prism_1_0_0_prod.Replay.Decimal.{decimal}

-- PlayerIdentity
pub record Identity : Type 0 where
  pub id : ℕ
  pub priv : ℕ

-- UNRESTRICTED | VERIFIED
abbrev pub public_player_mask : ℕ
public_player_mask = 3

unfoldable pub can_view_player : Option Identity → (target_id target_priv : ℕ) → Bool
can_view_player viewer target_id target_priv =
    (bit_and target_priv public_player_mask == public_player_mask)
    || elim viewer [ none ↦ false | some v ↦ v.id == target_id || has_priv v.priv staff_priv ]

pub record ReplayHeader : Type 0 where
  pub user_id : ℕ
  pub user_priv : ℕ
  pub username : Text
  pub map_md5 : Text
  pub mode : ℕ
  pub n300 : ℕ
  pub n100 : ℕ
  pub n50 : ℕ
  pub ngeki : ℕ
  pub nkatu : ℕ
  pub nmiss : ℕ
  pub score : ℕ
  pub max_combo : ℕ
  pub perfect : ℕ
  pub mods : ℕ
  pub ticks : ℤ

-- "True" and "False"
abbrev bool_text : Bool → Text
bool_text true = 84 ∷ 114 ∷ 117 ∷ 101 ∷ []
bool_text false = 70 ∷ 97 ∷ 108 ∷ 115 ∷ 101 ∷ []

-- The text whose digest is the replay's: the values, and the letters of the format between them.
unfoldable pub checksum_text : ReplayHeader → Text
checksum_text row =
    decimal (row.n100 + row.n300)
    ++ 112 ∷ decimal row.n50
    ++ 111 ∷ decimal row.ngeki
    ++ 111 ∷ decimal row.nkatu
    ++ 116 ∷ decimal row.nmiss
    ++ 97 ∷ row.map_md5
    ++ 114 ∷ decimal row.max_combo
    ++ 101 ∷ bool_text (row.perfect == 1)
    ++ 121 ∷ row.username
    ++ 111 ∷ decimal row.score
    ++ 117 ∷ decimal 0
    ++ decimal row.mods
    ++ bool_text true

-- DATETIME_OFFSET
abbrev pub datetime_offset : ℕ
datetime_offset = 0x89f7ff5f7b58000

abbrev pub add : ℕ → ℤ → ℤ
add k (pos n) = pos (n + k)
add k (negsuc n) = if ltb n k then pos (k - n - 1) else negsuc (n - k)

module _ (md5 : Bytes → Text) where
  abbrev pub replay_parts :
      (mode : ℕ) (replay_md5 : Text) → ReplayHeader → Bytes → (score_id : ℕ) → List (Result Bytes)
  replay_parts mode replay_md5 row raw score_id =
      pack 1 mode
      ∷ pack_signed 4 (pos 20200207)
      ∷ write_string row.map_md5
      ∷ write_string row.username
      ∷ write_string replay_md5
      ∷ pack_signed 2 (pos row.n300)
      ∷ pack_signed 2 (pos row.n100)
      ∷ pack_signed 2 (pos row.n50)
      ∷ pack_signed 2 (pos row.ngeki)
      ∷ pack_signed 2 (pos row.nkatu)
      ∷ pack_signed 2 (pos row.nmiss)
      ∷ pack_signed 4 (pos row.score)
      ∷ pack_signed 2 (pos row.max_combo)
      ∷ pack 1 row.perfect
      ∷ pack_signed 4 (pos row.mods)
      ∷ ok (0 ∷ [])
      ∷ pack_signed 8 (add datetime_offset row.ticks)
      ∷ pack_signed 4 (pos (length raw))
      ∷ ok raw
      ∷ pack_signed 8 (pos score_id)
      ∷ []

  unfoldable pub replay_data : ReplayHeader → Bytes → (score_id : ℕ) → Result Bytes
  unfolding checksum_text
  replay_data row raw score_id = do
    checked ← encode (checksum_text row)
    mode ← game_mode row.mode
    write_all (replay_parts (as_vanilla mode) (md5 checked) row raw score_id)

  abbrev pub is_hidden : Option Identity → ReplayHeader → Bool
  is_hidden viewer row = not (can_view_player viewer row.user_id row.user_priv)

  -- The file, the row, the viewer: what is missing or hidden is None.
  unfoldable pub build_full_replay :
      (file : Option Bytes) (row : Option ReplayHeader)
      → Option Identity
      → (score_id : ℕ) → Result (Option Bytes)
  unfolding replay_data
  build_full_replay none row viewer score_id = ok none
  build_full_replay (some raw) none viewer score_id = ok none
  build_full_replay (some raw) (some row) viewer score_id =
      if is_hidden viewer row then ok none else (do bs ← replay_data row raw score_id; ok (some bs))

-- The row and the viewer are looked at before the file.
unfoldable pub fetch_raw_replay :
    (file : Option Bytes) (row : Option ReplayHeader) → Option Identity → Option Bytes
fetch_raw_replay file none viewer = none
fetch_raw_replay file (some row) viewer =
    if not (can_view_player viewer row.user_id row.user_priv) then none else file
