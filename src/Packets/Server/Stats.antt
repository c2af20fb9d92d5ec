-- ===== src/Packets/Server/Stats.antt =====
-- app/packets.py: the statistics of a user. `percent` gives the bit pattern of a float divided by
-- 100.0 and kept in four bytes.
use bancho_prism_1_0_0_prod.Base.{ℕ, [], ◌∷◌, Bool, ltb, if◌then◌else◌, Result}
use bancho_prism_1_0_0_prod.Base.Int.{ℤ, pos}
use bancho_prism_1_0_0_prod.Utf8.{Bytes, Text}
use bancho_prism_1_0_0_prod.GameMode.{as_vanilla}
use bancho_prism_1_0_0_prod.Packets.Write.{i32, u8, i64, f32, u16, string}
use bancho_prism_1_0_0_prod.Packets.Server as S
use bancho_prism_1_0_0_prod.Packets.Server.{write_packet}

-- What `user_stats` reads of the status of a player and of its statistics in the mode.
pub record Status : Type 0 where
  pub action : ℤ
  pub info_text : Text
  pub map_md5 : Text
  pub mods : ℤ
  pub mode : ℕ
  pub map_id : ℤ

pub record ModeData : Type 0 where
  pub rscore : ℕ
  pub acc : ℕ
  pub plays : ℤ
  pub tscore : ℤ
  pub rank : ℤ
  pub pp : ℕ

module _ (online : ℕ → Bool) (percent : ℕ → ℕ) where
  -- The status is the pair that `random.choice` drew from BOT_STATUSES.
  unfoldable pub bot_stats : (player_id status_id : ℤ) (status_txt : Text) → Result Bytes
  bot_stats player_id status_id status_txt = write_packet online S.user_stats (
      i32 player_id
      ∷ u8 status_id
      ∷ string status_txt
      ∷ string []
      ∷ i32 (pos 0)
      ∷ u8 (pos 0)
      ∷ i32 (pos 0)
      ∷ i64 (pos 0)
      ∷ f32 0
      ∷ i32 (pos 0)
      ∷ i64 (pos 0)
      ∷ i32 (pos 0)
      ∷ u16 0
      ∷ [])

  -- The packet, once the pp is capped.
  abbrev stats_packet :
      (user_id action : ℤ) (info_text map_md5 : Text) (mods mode map_id ranked_score : ℤ)
      → (accuracy : ℕ) (plays total_score global_rank : ℤ) (pp : ℕ) → Result Bytes
  stats_packet user_id action info_text map_md5 mods mode map_id ranked_score accuracy plays
        total_score global_rank pp =
      write_packet online S.user_stats (
        i32 user_id
        ∷ u8 action
        ∷ string info_text
        ∷ string map_md5
        ∷ i32 mods
        ∷ u8 mode
        ∷ i32 map_id
        ∷ i64 ranked_score
        ∷ f32 (percent accuracy)
        ∷ i32 plays
        ∷ i64 total_score
        ∷ i32 global_rank
        ∷ u16 pp
        ∷ [])

  unfoldable pub _user_stats :
      (user_id action : ℤ) (info_text map_md5 : Text) (mods mode map_id : ℤ) (ranked_score : ℕ)
      → (accuracy : ℕ) (plays total_score global_rank : ℤ) (pp : ℕ) → Result Bytes
  _user_stats user_id action info_text map_md5 mods mode map_id ranked_score accuracy plays
        total_score global_rank pp =
      let over = ltb 0xffff pp in
      stats_packet user_id action info_text map_md5 mods mode map_id
        (pos (if over then pp else ranked_score)) accuracy plays total_score global_rank
        (if over then 0 else pp)

  unfoldable pub user_stats : (player_id : ℤ) → Status → ModeData → Result Bytes
  user_stats player_id status gm_stats =
      let over = ltb 0xffff gm_stats.pp in
      let rscore = if over then gm_stats.pp else gm_stats.rscore in
      let pp = if over then 0 else gm_stats.pp in
      write_packet online S.user_stats (
        i32 player_id
        ∷ u8 status.action
        ∷ string status.info_text
        ∷ string status.map_md5
        ∷ i32 status.mods
        ∷ u8 (pos (as_vanilla status.mode))
        ∷ i32 status.map_id
        ∷ i64 (pos rscore)
        ∷ f32 (percent gm_stats.acc)
        ∷ i32 gm_stats.plays
        ∷ i64 gm_stats.tscore
        ∷ i32 gm_stats.rank
        ∷ u16 pp
        ∷ [])
