-- ===== src/Tests/Rooms.antt =====
-- Runs of the handlers of a match, of joining and of leaving.
use bancho_prism_1_0_0_prod.Base.{
  ℕ, ◌≡◌, refl, List, [], ◌∷◌, Bool, true, false, none, some, arith, get_elem?,
}
use bancho_prism_1_0_0_prod.Base.Int.{pos}
use bancho_prism_1_0_0_prod.Match.{get_slot_id, opened}
use bancho_prism_1_0_0_prod.Match.Handlers.{set_status, match_lock}
use bancho_prism_1_0_0_prod.Match.Seats.{Absent}
use bancho_prism_1_0_0_prod.Match.Writes.{players}
use bancho_prism_1_0_0_prod.Match.Validity.{IsValid}
use bancho_prism_1_0_0_prod.Match.Validity.Rooms.{
  IsOutside, join_match-IsValid, leave_match_vacates, leave_match_passes_host,
}
use bancho_prism_1_0_0_prod.Match.Membership.{Room, Player, join_match, leave_match}
use bancho_prism_1_0_0_prod.Match.Requests.{
  Request, serve, serve-IsValid, is_ready, change_slot, lock, start, complete, load_complete,
}
use bancho_prism_1_0_0_prod.Match.Locks.{match_lock_twice}
use bancho_prism_1_0_0_prod.Match.{Match, score, head_to_head, new_slot}
use bancho_prism_1_0_0_prod.Base.{replicate}
use bancho_prism_1_0_0_prod.Match.Seats.{All}
use bancho_prism_1_0_0_prod.Match.Settings.{validate_match_data}
use bancho_prism_1_0_0_prod.Packets.MatchData.{MultiplayerMatch}
use bancho_prism_1_0_0_prod.Packets.MatchFields.{wire}
use bancho_prism_1_0_0_prod.Match.Create.{Lobby, match_create, made, new_match, first_free}
use bancho_prism_1_0_0_prod.Match.Validity.Created.{
  IsSound, match_create-IsSound, match_create_while_in_match,
}
use bancho_prism_1_0_0_prod.Spectators.{Sessions}
use bancho_prism_1_0_0_prod.Spectators.Times.{times}
use bancho_prism_1_0_0_prod.Spectators.Kept.{IsConsistent}
use bancho_prism_1_0_0_prod.Spectators.Requests.{
  SpectatorRequest, start_request, stop_request, IsKept, spectator_requests,
  spectator_requests-IsKept,
}
use bancho_prism_1_0_0_prod.Tests.Samples.{everyone, other_slot, slots, sample, slots-IsValid}

-- The host gets ready, the other player moves, the host starts; both load and finish.
abbrev game : List (ℕ × Request)
game =
    (3, is_ready)
    ∷ (7, change_slot (pos 5))
    ∷ (3, lock (pos 1))
    ∷ (3, start 100)
    ∷ (3, load_complete)
    ∷ (7, load_complete)
    ∷ (3, complete)
    ∷ (7, complete)
    ∷ []

serve-IsValid_example : IsValid (serve everyone game sample).slots
serve-IsValid_example = serve-IsValid everyone game sample slots-IsValid

abbrev visitor : Player
visitor = record {
  id = 9;
  priv = 3;
  match_id = none;
  restricted = false;
  silenced = false;
  replies = [];
}

abbrev entrance : Room
entrance = record { player = visitor; match = sample; lobby = some (9 ∷ []); listed = true }

entrance-IsOutside : IsOutside entrance
entrance-IsOutside = ((λ e. cc), ((λ e. cc), tt))

join_match-IsValid_example : IsValid (join_match everyone (99 ∷ []) entrance).1.match.slots
join_match-IsValid_example =
    join_match-IsValid everyone (99 ∷ []) entrance slots-IsValid entrance-IsOutside

abbrev host : Player
host = record {
  id = 3;
  priv = 3;
  match_id = some 1;
  restricted = false;
  silenced = false;
  replies = [];
}

abbrev room : Room
room = record { player = host; match = sample; lobby = none; listed = true }

host_seat : get_slot_id 3 slots ≡ some 0
unfolding get_slot_id
host_seat = refl

leave_match_vacates_example :
    let left = (leave_match everyone room).1.match.slots in IsValid left × Absent 3 (players left)
leave_match_vacates_example = leave_match_vacates everyone room 0 slots-IsValid host_seat refl

leave_match_passes_host_example :
    let m = (leave_match everyone room).1.match in
    (j : ℕ) × (get_elem? (players m.slots) j ≡ some (some m.host_id))
leave_match_passes_host_example =
    leave_match_passes_host everyone room 0 host_seat refl refl refl refl

match_lock_twice_example :
    let once = (match_lock everyone 3 (pos 1) sample).1 in
    get_elem? (match_lock everyone 3 (pos 1) once).1.slots 1 ≡ some (set_status opened other_slot)
match_lock_twice_example =
    match_lock_twice everyone sample 1 other_slot refl (omega arith) refl refl refl

-- Nobody watches anybody.
abbrev quiet : Sessions
quiet = record { spectators = λ h. []; spectating = λ p. none; channel = λ h. none; sent = [] }

quiet-IsConsistent : IsConsistent quiet
unfolding times
quiet-IsConsistent = record { watched = λ h p. refl; in_channel = λ h p. omega arith }

-- 7 and 9 watch 3, 7 turns to 9, and both stop.
abbrev watching : List (ℕ × SpectatorRequest)
watching =
    (7, start_request (pos 3))
    ∷ (9, start_request (pos 3))
    ∷ (7, start_request (pos 9))
    ∷ (9, stop_request)
    ∷ (7, stop_request)
    ∷ []

abbrev ordinary : ℕ → ℕ
ordinary p = 3

abbrev nobody : ℕ → Bool
nobody p = false

spectator_requests-IsKept_example :
    IsKept (spectator_requests ordinary nobody everyone watching quiet)
spectator_requests-IsKept_example =
    spectator_requests-IsKept ordinary nobody everyone watching quiet quiet-IsConsistent

-- The host of the sample sends a match of its own.
abbrev wanted : MultiplayerMatch
wanted = wire sample true

abbrev session : Lobby
session = record { creator = host; matches = none ∷ some sample ∷ none ∷ []; lobby = none }

abbrev created : Match
created = made 0 3 0 score head_to_head wanted

wanted_valid : validate_match_data wanted 3 ≡ true
unfolding validate_match_data
wanted_valid = refl

wanted_made : new_match 0 3 wanted ≡ some created
unfolding new_match
wanted_made = refl

first_place : first_free (none ∷ some sample ∷ none ∷ []) ≡ some 0
unfolding first_free
first_place = refl

match_create-IsSound_example : All IsSound (match_create everyone wanted session).1.matches
match_create-IsSound_example =
    match_create-IsSound everyone wanted session (tt, (slots-IsValid, (tt, tt)))

match_create_while_in_match_example :
    let r = (match_create everyone wanted session).1 in
    (get_elem? r.matches 0 ≡ some (some created))
    × (created.slots ≡ replicate 16 new_slot)
    × (r.creator.match_id ≡ some 1)
match_create_while_in_match_example =
    match_create_while_in_match everyone wanted session 0 created wanted_valid refl refl refl
      first_place (omega arith) wanted_made
