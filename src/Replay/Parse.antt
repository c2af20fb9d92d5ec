-- ===== src/Replay/Parse.antt =====
-- parse_osr and parse_replay_frame_data of app/adapters/osr_replay.py.
use bancho_prism_1_0_0_prod.Base.{
  ℕ, List, [], Bool, false, Option, leb, ◌==◌, if◌then◌else◌, Result, ok, err,
}
use bancho_prism_1_0_0_prod.Base.Int.{ℤ, pos}
use bancho_prism_1_0_0_prod.Utf8.{Bytes, Text}
use bancho_prism_1_0_0_prod.Replay.Reader.{
  Reader, ◌>>=◌, pure, read_byte, read_int16, read_int32, read_int64, read_string, read_bytes,
  remaining,
}
use bancho_prism_1_0_0_prod.Replay.Frames.{ReplayFrame, decode_replay_frames}

pub record Replay : Type 0 where
  pub mode : ℤ
  pub version : ℕ
  pub beatmap_md5 : Text
  pub player_name : Text
  pub replay_md5 : Text
  pub n300 : ℕ
  pub n100 : ℕ
  pub n50 : ℕ
  pub ngeki : ℕ
  pub nkatu : ℕ
  pub nmiss : ℕ
  pub score : ℕ
  pub max_combo : ℕ
  pub perfect : Bool
  pub mods : ℕ
  pub life_bar_graph : Text
  pub timestamp : ℤ
  pub frames : List ReplayFrame
  pub rng_seed : Option ℤ
  pub online_score_id : ℤ

-- A result with no part in the position.
abbrev pub lift {ℓ} : {A : Type ℓ} → Result A → Reader A
lift (ok a) bs i = ok (a, i)
lift (err e) bs i = err e

-- The score id that very old replays leave out.
unfoldable pub read_score_id : Reader ℤ
unfolding remaining
read_score_id bs i = if leb 8 (remaining bs i) then read_int64 bs i else ok (pos 0, i)

module _ (float : Text → Option ℕ) (decompress : Bytes → Option Bytes) where
  unfoldable pub read_replay : Reader Replay
  read_replay = do
    mode ← read_byte
    version ← read_int32
    beatmap_md5 ← read_string
    player_name ← read_string
    replay_md5 ← read_string
    n300 ← read_int16
    n100 ← read_int16
    n50 ← read_int16
    ngeki ← read_int16
    nkatu ← read_int16
    nmiss ← read_int16
    score ← read_int32
    max_combo ← read_int16
    perfect ← read_byte
    mods ← read_int32
    life_bar_graph ← read_string
    timestamp ← read_int64
    compressed_length ← read_int32
    compressed ← read_bytes compressed_length
    online_score_id ← read_score_id
    decoded ← lift (decode_replay_frames float decompress compressed)
    pure (record {
      mode = pos mode;
      version = version;
      beatmap_md5 = beatmap_md5;
      player_name = player_name;
      replay_md5 = replay_md5;
      n300 = n300;
      n100 = n100;
      n50 = n50;
      ngeki = ngeki;
      nkatu = nkatu;
      nmiss = nmiss;
      score = score;
      max_combo = max_combo;
      perfect = perfect == 1;
      mods = mods;
      life_bar_graph = life_bar_graph;
      timestamp = timestamp;
      frames = decoded.0;
      rng_seed = decoded.1;
      online_score_id = online_score_id;
    })

  unfoldable pub parse_osr : Bytes → Result Replay
  unfolding read_replay
  parse_osr bs = elim (read_replay bs 0) [ ok (replay, i) ↦ ok replay | err e ↦ err e ]

  unfoldable pub parse_replay_frame_data : (mode : ℤ) → Bytes → Result Replay
  parse_replay_frame_data mode compressed =
      elim (decode_replay_frames float decompress compressed) [
        | err e ↦ err e
        | ok (frames, rng_seed) ↦ ok (record {
          mode = mode;
          version = 0;
          beatmap_md5 = [];
          player_name = [];
          replay_md5 = [];
          n300 = 0;
          n100 = 0;
          n50 = 0;
          ngeki = 0;
          nkatu = 0;
          nmiss = 0;
          score = 0;
          max_combo = 0;
          perfect = false;
          mods = 0;
          life_bar_graph = [];
          timestamp = pos 0;
          frames = frames;
          rng_seed = rng_seed;
          online_score_id = pos 0;
        })
      ]
