-- ===== src/Match/Requests.antt =====
-- The packets that a player sends to the match that it is in, and any sequence of them: each handler
-- of app/api/domains/cho.py runs to its end before the next one starts.
use bancho_prism_1_0_0_prod.Base.{ℕ, List, [], ◌∷◌, Bool, Option}
use bancho_prism_1_0_0_prod.Base.Int.{ℤ}
use bancho_prism_1_0_0_prod.Utf8.{Bytes}
use bancho_prism_1_0_0_prod.Packets.MatchData.{MultiplayerMatch}
use bancho_prism_1_0_0_prod.Match.{Match}
use bancho_prism_1_0_0_prod.Match.Handlers.{
  Outcome, match_ready, match_no_beatmap, match_not_ready, match_has_beatmap, match_change_slot,
  match_lock, match_score_update_handler, match_change_mods, match_load_complete, match_failed,
  match_skip_request, match_transfer_host, match_change_team, match_start_handler,
}
use bancho_prism_1_0_0_prod.Match.Complete.{match_complete_handler}
use bancho_prism_1_0_0_prod.Match.Settings.{Bmap, match_change_settings, match_change_password}
use bancho_prism_1_0_0_prod.Match.Validity.{IsValid}
use bancho_prism_1_0_0_prod.Match.Validity.Single.{
  match_ready-IsValid, match_no_beatmap-IsValid, match_not_ready-IsValid, match_has_beatmap-IsValid,
  match_lock-IsValid, match_score_update-IsValid, match_change_mods-IsValid,
  match_load_complete-IsValid, match_failed-IsValid, match_skip_request-IsValid,
  match_transfer_host-IsValid, match_change_team-IsValid,
}
use bancho_prism_1_0_0_prod.Match.Validity.Whole.{
  match_change_slot-IsValid, match_start-IsValid, match_complete-IsValid,
  match_change_settings-IsValid, match_change_password-IsValid,
}

-- `start` has the time at which it is handled, `change_settings` what the handler awaits.
pub data Request : Type 0 where
  is_ready no_beatmap not_ready has_beatmap load_complete failed skip complete change_team : Request
  change_slot lock transfer_host change_mods : ℤ → Request
  start : (now : ℕ) → Request
  score_update : Bytes → Request
  change_settings : (host_mode : ℕ) → Option Bmap → MultiplayerMatch → Request
  change_password : MultiplayerMatch → Request

unfoldable pub handle : (ℕ → Bool) → (player : ℕ) → Request → Match → Outcome
handle online p is_ready = match_ready p
handle online p no_beatmap = match_no_beatmap p
handle online p not_ready = match_not_ready p
handle online p has_beatmap = match_has_beatmap p
handle online p load_complete = match_load_complete p
handle online p failed = match_failed p
handle online p skip = match_skip_request p
handle online p complete = match_complete_handler p
handle online p change_team = match_change_team p
handle online p (change_slot slot_id) = match_change_slot p slot_id
handle online p (lock slot_id) = match_lock online p slot_id
handle online p (transfer_host slot_id) = match_transfer_host online p slot_id
handle online p (change_mods mods) = match_change_mods online p mods
handle online p (start now) = match_start_handler online now p
handle online p (score_update play_data) = match_score_update_handler p play_data
handle online p (change_settings host_mode bmap d) = match_change_settings online host_mode bmap d p
handle online p (change_password d) = match_change_password online d p

-- A request that raises ends there, and leaves what it wrote to the next one.
unfoldable pub serve : (ℕ → Bool) → List (ℕ × Request) → Match → Match
serve online [] m = m
serve online ((p, r) ∷ requests) m = serve online requests (handle online p r m).1

handle-IsValid :
    (online : ℕ → Bool) (p : ℕ) (r : Request) (m : Match)
    → IsValid m.slots
    → IsValid (handle online p r m).1.slots
unfolding handle
handle-IsValid online p is_ready m v = match_ready-IsValid p m v
handle-IsValid online p no_beatmap m v = match_no_beatmap-IsValid p m v
handle-IsValid online p not_ready m v = match_not_ready-IsValid p m v
handle-IsValid online p has_beatmap m v = match_has_beatmap-IsValid p m v
handle-IsValid online p load_complete m v = match_load_complete-IsValid p m v
handle-IsValid online p failed m v = match_failed-IsValid p m v
handle-IsValid online p skip m v = match_skip_request-IsValid p m v
handle-IsValid online p complete m v = match_complete-IsValid p m v
handle-IsValid online p change_team m v = match_change_team-IsValid p m v
handle-IsValid online p (change_slot slot_id) m v = match_change_slot-IsValid p m v slot_id
handle-IsValid online p (lock slot_id) m v = match_lock-IsValid online p m v slot_id
handle-IsValid online p (transfer_host slot_id) m v =
    match_transfer_host-IsValid online p m v slot_id
handle-IsValid online p (change_mods mods) m v = match_change_mods-IsValid online p m v mods
handle-IsValid online p (start now) m v = match_start-IsValid p m v online now
handle-IsValid online p (score_update play_data) m v = match_score_update-IsValid p m v play_data
handle-IsValid online p (change_settings host_mode bmap d) m v =
    match_change_settings-IsValid online host_mode bmap d p m v
handle-IsValid online p (change_password d) m v =
    match_change_password-IsValid online 0 Option.none d p m v

-- From valid slots, whatever packets the players of a match send in whatever order, and whether or
-- not their handlers raise, the slots stay valid: sixteen of them, no player in two, and a player
-- in every slot whose status has one.
pub serve-IsValid :
    (online : ℕ → Bool) (requests : List (ℕ × Request)) (m : Match)
    → IsValid m.slots
    → IsValid (serve online requests m).slots
unfolding serve
serve-IsValid online [] m v = v
serve-IsValid online ((p, r) ∷ requests) m v =
    serve-IsValid online requests (handle online p r m).1 (handle-IsValid online p r m v)
