-- ===== src/Packets/Server.antt =====
-- The packets of the server, by the members of ServerPackets in app/packets.py: the functions that
-- build them are in the modules below, one `write` each. A cached builder is the function it caches.
pub mod Users
pub mod Presences
pub mod Rooms
pub mod Stats
use bancho_prism_1_0_0_prod.Base.{ℕ, List, Bool, Result}
use bancho_prism_1_0_0_prod.Utf8.{Bytes}
use bancho_prism_1_0_0_prod.Packets.Write.{PacketArg, write}

pub data ServerPackets : Type 0 where
  user_id send_message pong handle_irc_change_username handle_irc_quit user_stats user_logout
        spectator_joined spectator_left spectate_frames version_update spectator_cant_spectate
        get_attention notification update_match new_match dispose_match toggle_block_non_friend_dms
        match_join_success match_join_fail fellow_spectator_joined fellow_spectator_left
        all_players_loaded match_start match_score_update match_transfer_host
        match_all_players_loaded match_player_failed match_complete match_skip unauthorized
        channel_join_success channel_info channel_kick channel_auto_join beatmap_info_reply
        privileges friends_list protocol_version main_menu_icon monitor match_player_skipped
        user_presence restart match_invite channel_info_end match_change_password silence_end
        user_silenced user_presence_single user_presence_bundle user_dm_blocked target_is_silenced
        version_update_forced switch_server account_restricted rtx match_abort
        switch_tournament_server :
      ServerPackets

abbrev pub packet_id : ServerPackets → ℕ
packet_id user_id = 5
packet_id send_message = 7
packet_id pong = 8
packet_id handle_irc_change_username = 9
packet_id handle_irc_quit = 10
packet_id user_stats = 11
packet_id user_logout = 12
packet_id spectator_joined = 13
packet_id spectator_left = 14
packet_id spectate_frames = 15
packet_id version_update = 19
packet_id spectator_cant_spectate = 22
packet_id get_attention = 23
packet_id notification = 24
packet_id update_match = 26
packet_id new_match = 27
packet_id dispose_match = 28
packet_id toggle_block_non_friend_dms = 34
packet_id match_join_success = 36
packet_id match_join_fail = 37
packet_id fellow_spectator_joined = 42
packet_id fellow_spectator_left = 43
packet_id all_players_loaded = 45
packet_id match_start = 46
packet_id match_score_update = 48
packet_id match_transfer_host = 50
packet_id match_all_players_loaded = 53
packet_id match_player_failed = 57
packet_id match_complete = 58
packet_id match_skip = 61
packet_id unauthorized = 62
packet_id channel_join_success = 64
packet_id channel_info = 65
packet_id channel_kick = 66
packet_id channel_auto_join = 67
packet_id beatmap_info_reply = 69
packet_id privileges = 71
packet_id friends_list = 72
packet_id protocol_version = 75
packet_id main_menu_icon = 76
packet_id monitor = 80
packet_id match_player_skipped = 81
packet_id user_presence = 83
packet_id restart = 86
packet_id match_invite = 88
packet_id channel_info_end = 89
packet_id match_change_password = 91
packet_id silence_end = 92
packet_id user_silenced = 94
packet_id user_presence_single = 95
packet_id user_presence_bundle = 96
packet_id user_dm_blocked = 100
packet_id target_is_silenced = 101
packet_id version_update_forced = 102
packet_id switch_server = 103
packet_id account_restricted = 104
packet_id rtx = 105
packet_id match_abort = 106
packet_id switch_tournament_server = 107

-- `write` of a member of the enumeration.
abbrev pub write_packet : (ℕ → Bool) → ServerPackets → List PacketArg → Result Bytes
write_packet online p args = write online (packet_id p) args
