-- ===== src/Packets/Server/Users.antt =====
-- app/packets.py: what the server sends about users, messages, spectators and the connection.
use bancho_prism_1_0_0_prod.Base.{ℕ, List, [], ◌∷◌, ◌++◌, Bool, Result}
use bancho_prism_1_0_0_prod.Base.Int.{ℤ, pos}
use bancho_prism_1_0_0_prod.Utf8.{Bytes, Text}
use bancho_prism_1_0_0_prod.Packets.Write.{raw, i32, u8, string, i32_list, message}
use bancho_prism_1_0_0_prod.Packets.Server as S
use bancho_prism_1_0_0_prod.Packets.Server.{write_packet}

module _ (online : ℕ → Bool) where
  unfoldable pub login_reply : (user_id : ℤ) → Result Bytes
  login_reply user_id = write_packet online S.user_id (i32 user_id ∷ [])

  unfoldable pub send_message : (sender msg recipient : Text) (sender_id : ℤ) → Result Bytes
  send_message sender msg recipient sender_id =
      write_packet online S.send_message (message sender msg recipient sender_id ∷ [])

  unfoldable pub pong : Result Bytes
  pong = write_packet online S.pong ([])

  unfoldable pub change_username : (old new : Text) → Result Bytes
  change_username old new =
      write_packet online S.handle_irc_change_username
        (string (old ++ 62 ∷ 62 ∷ 62 ∷ 62 ∷ new) ∷ [])

  unfoldable pub logout : (user_id : ℤ) → Result Bytes
  logout user_id = write_packet online S.user_logout (i32 user_id ∷ u8 (pos 0) ∷ [])

  unfoldable pub spectator_joined : (user_id : ℤ) → Result Bytes
  spectator_joined user_id = write_packet online S.spectator_joined (i32 user_id ∷ [])

  unfoldable pub spectator_left : (user_id : ℤ) → Result Bytes
  spectator_left user_id = write_packet online S.spectator_left (i32 user_id ∷ [])

  unfoldable pub spectate_frames : (frames : Bytes) → Result Bytes
  spectate_frames frames = write_packet online S.spectate_frames (raw frames ∷ [])

  unfoldable pub version_update : Result Bytes
  version_update = write_packet online S.version_update ([])

  unfoldable pub spectator_cant_spectate : (user_id : ℤ) → Result Bytes
  spectator_cant_spectate user_id = write_packet online S.spectator_cant_spectate (i32 user_id ∷ [])

  unfoldable pub get_attention : Result Bytes
  get_attention = write_packet online S.get_attention ([])

  unfoldable pub notification : (msg : Text) → Result Bytes
  notification msg = write_packet online S.notification (string msg ∷ [])

  unfoldable pub toggle_block_non_friend_dm : Result Bytes
  toggle_block_non_friend_dm = write_packet online S.toggle_block_non_friend_dms ([])

  unfoldable pub fellow_spectator_joined : (user_id : ℤ) → Result Bytes
  fellow_spectator_joined user_id = write_packet online S.fellow_spectator_joined (i32 user_id ∷ [])

  unfoldable pub fellow_spectator_left : (user_id : ℤ) → Result Bytes
  fellow_spectator_left user_id = write_packet online S.fellow_spectator_left (i32 user_id ∷ [])

  unfoldable pub bancho_privileges : (priv : ℤ) → Result Bytes
  bancho_privileges priv = write_packet online S.privileges (i32 priv ∷ [])

  unfoldable pub friends_list : (friends : List ℤ) → Result Bytes
  friends_list friends = write_packet online S.friends_list (i32_list friends ∷ [])

  unfoldable pub protocol_version : (ver : ℤ) → Result Bytes
  protocol_version ver = write_packet online S.protocol_version (i32 ver ∷ [])

  unfoldable pub main_menu_icon : (icon_url onclick_url : Text) → Result Bytes
  main_menu_icon icon_url onclick_url =
      write_packet online S.main_menu_icon (string (icon_url ++ 124 ∷ onclick_url) ∷ [])

  unfoldable pub monitor : Result Bytes
  monitor = write_packet online S.monitor ([])

  unfoldable pub restart_server : (ms : ℤ) → Result Bytes
  restart_server ms = write_packet online S.restart (i32 ms ∷ [])

  unfoldable pub silence_end : (delta : ℤ) → Result Bytes
  silence_end delta = write_packet online S.silence_end (i32 delta ∷ [])

  unfoldable pub user_silenced : (user_id : ℤ) → Result Bytes
  user_silenced user_id = write_packet online S.user_silenced (i32 user_id ∷ [])

  unfoldable pub user_presence_single : (user_id : ℤ) → Result Bytes
  user_presence_single user_id = write_packet online S.user_presence_single (i32 user_id ∷ [])

  unfoldable pub user_presence_bundle : (user_ids : List ℤ) → Result Bytes
  user_presence_bundle user_ids =
      write_packet online S.user_presence_bundle (i32_list user_ids ∷ [])

  unfoldable pub user_dm_blocked : (target : Text) → Result Bytes
  user_dm_blocked target = write_packet online S.user_dm_blocked (message [] [] target (pos 0) ∷ [])

  unfoldable pub target_silenced : (target : Text) → Result Bytes
  target_silenced target =
      write_packet online S.target_is_silenced (message [] [] target (pos 0) ∷ [])

  unfoldable pub version_update_forced : Result Bytes
  version_update_forced = write_packet online S.version_update_forced ([])

  unfoldable pub switch_server : (t : ℤ) → Result Bytes
  switch_server t = write_packet online S.switch_server (i32 t ∷ [])

  unfoldable pub account_restricted : Result Bytes
  account_restricted = write_packet online S.account_restricted ([])

  unfoldable pub rtx : (msg : Text) → Result Bytes
  rtx msg = write_packet online S.rtx (string msg ∷ [])

  unfoldable pub switch_tournament_server : (ip : Text) → Result Bytes
  switch_tournament_server ip = write_packet online S.switch_tournament_server (string ip ∷ [])
