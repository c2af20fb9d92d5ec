-- ===== src/Packets/Server/Rooms.antt =====
-- app/packets.py: what the server sends about matches and channels.
use bancho_prism_1_0_0_prod.Base.{ℕ, [], ◌∷◌, Bool, true, Result}
use bancho_prism_1_0_0_prod.Base.Int.{ℤ}
use bancho_prism_1_0_0_prod.Utf8.{Bytes, Text}
use bancho_prism_1_0_0_prod.Match.{Match}
use bancho_prism_1_0_0_prod.Packets.ScoreFrames.{ScoreFrame}
use bancho_prism_1_0_0_prod.Packets.Write.{i32, string, channel, match, scoreframe}
use bancho_prism_1_0_0_prod.Packets.Server as S
use bancho_prism_1_0_0_prod.Packets.Server.{write_packet}

module _ (online : ℕ → Bool) where
  unfoldable pub update_match : (m : Match) (send_pw : Bool) → Result Bytes
  update_match m send_pw = write_packet online S.update_match (match m send_pw ∷ [])

  unfoldable pub new_match : (m : Match) → Result Bytes
  new_match m = write_packet online S.new_match (match m true ∷ [])

  unfoldable pub dispose_match : (id : ℤ) → Result Bytes
  dispose_match id = write_packet online S.dispose_match (i32 id ∷ [])

  unfoldable pub match_join_success : (m : Match) → Result Bytes
  match_join_success m = write_packet online S.match_join_success (match m true ∷ [])

  unfoldable pub match_join_fail : Result Bytes
  match_join_fail = write_packet online S.match_join_fail ([])

  unfoldable pub match_start : (m : Match) → Result Bytes
  match_start m = write_packet online S.match_start (match m true ∷ [])

  unfoldable pub match_score_update : (frame : ScoreFrame) → Result Bytes
  match_score_update frame = write_packet online S.match_score_update (scoreframe frame ∷ [])

  unfoldable pub match_transfer_host : Result Bytes
  match_transfer_host = write_packet online S.match_transfer_host ([])

  unfoldable pub match_all_players_loaded : Result Bytes
  match_all_players_loaded = write_packet online S.match_all_players_loaded ([])

  unfoldable pub match_player_failed : (slot_id : ℤ) → Result Bytes
  match_player_failed slot_id = write_packet online S.match_player_failed (i32 slot_id ∷ [])

  unfoldable pub match_complete : Result Bytes
  match_complete = write_packet online S.match_complete ([])

  unfoldable pub match_skip : Result Bytes
  match_skip = write_packet online S.match_skip ([])

  unfoldable pub match_player_skipped : (user_id : ℤ) → Result Bytes
  match_player_skipped user_id = write_packet online S.match_player_skipped (i32 user_id ∷ [])

  unfoldable pub match_change_password : (new : Text) → Result Bytes
  match_change_password new = write_packet online S.match_change_password (string new ∷ [])

  unfoldable pub match_abort : Result Bytes
  match_abort = write_packet online S.match_abort ([])

  unfoldable pub channel_join : (name : Text) → Result Bytes
  channel_join name = write_packet online S.channel_join_success (string name ∷ [])

  unfoldable pub channel_info : (name topic : Text) (p_count : ℕ) → Result Bytes
  channel_info name topic p_count =
      write_packet online S.channel_info (channel name topic p_count ∷ [])

  unfoldable pub channel_kick : (name : Text) → Result Bytes
  channel_kick name = write_packet online S.channel_kick (string name ∷ [])

  unfoldable pub channel_auto_join : (name topic : Text) (p_count : ℕ) → Result Bytes
  channel_auto_join name topic p_count =
      write_packet online S.channel_auto_join (channel name topic p_count ∷ [])

  unfoldable pub channel_info_end : Result Bytes
  channel_info_end = write_packet online S.channel_info_end ([])
