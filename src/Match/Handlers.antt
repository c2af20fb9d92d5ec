-- ===== src/Match/Handlers.antt =====
-- The multiplayer packet handlers of app/api/domains/cho.py that act on the sender's match. Each is
-- given the id of its player and the match that the player is in, and returns what it raised, if it
-- did, and the match as it left it. `online` says whose session `match.host` finds.
use Prim.Native.Nat.{bit_and}
use bancho_prism_1_0_0_prod.Base.{
  ℕ, ◌-◌, ◌^◌, List, [], ◌∷◌, ◌++◌, Bool, true, false, ◌&&◌, ◌||◌, not, Option, none, some, ltb,
  ◌==◌, if◌then◌else◌, get_elem?, length, set, Result, ok, err, assertion_error, value_error,
  index_error,
}
use bancho_prism_1_0_0_prod.Base.Int.{ℤ, pos, negsuc}
use bancho_prism_1_0_0_prod.Utf8.{Bytes}
use bancho_prism_1_0_0_prod.Match.{
  Match, Slot, SlotStatus, opened, locked, not_ready, ready, no_map, playing, is_status, blue, red,
  team_value, copy_from, reset, holds, get_slot_id, modify, enqueue, enqueue_state, start,
  match_all_players_loaded, match_skip, match_score_update, match_player_failed,
  match_player_skipped, host_told, speed_changing_mods, other_mods,
}

abbrev pub Outcome : Type 0
Outcome = Result (Unit {0}) × Match

abbrev pub done : Match → Outcome
done m = (ok tt, m)

-- A handler does nothing while its player is in no match.
abbrev pub in_match : (Match → Outcome) → Option Match → Result (Unit {0}) × Option Match
in_match handle none = (ok tt, none)
in_match handle (some m) = let (r, m') = handle m in (r, some m')

-- `slot = match.get_slot(player); assert slot is not None`
abbrev pub with_slot : ℕ → Match → (ℕ → Outcome) → Outcome
with_slot player m k = elim (get_slot_id player m.slots) [
  | none ↦ (err assertion_error, m)
  | some i ↦ k i
]

-- The property `match.host` raises where the host has no session.
abbrev pub with_host : (ℕ → Bool) → Match → Outcome → Outcome
with_host online m k = if online m.host_id then k else (err value_error, m)

abbrev pub modify_slot : ℕ → (Slot → Slot) → Match → Match
modify_slot i f m = record m { slots = modify i f m.slots }

abbrev pub set_status : SlotStatus → Slot → Slot
set_status status s = record s { status = status }

-- `0 <= slot_id < 16`
abbrev pub in_range : ℤ → Option ℕ
in_range (pos n) = if ltb n 16 then some n else none
in_range (negsuc n) = none

-- The handlers that set the status of the player's own slot.
abbrev own_status : SlotStatus → ℕ → Match → Outcome
own_status status player m =
    with_slot player m (λ i. done (enqueue_state false (modify_slot i (set_status status) m)))

unfoldable pub match_ready : ℕ → Match → Outcome
match_ready = own_status ready

unfoldable pub match_no_beatmap : ℕ → Match → Outcome
match_no_beatmap = own_status no_map

unfoldable pub match_not_ready : ℕ → Match → Outcome
match_not_ready = own_status not_ready

unfoldable pub match_has_beatmap : ℕ → Match → Outcome
match_has_beatmap = own_status not_ready

-- The move of the slot at `i` to the slot at `j`.
unfoldable pub move_slot : (i j : ℕ) → List Slot → List Slot
move_slot i j slots = elim (get_elem? slots i) [
  | none ↦ slots
  | some s ↦ modify i (reset opened) (modify j (λ t. copy_from t s) slots)
]

unfoldable pub match_change_slot : ℕ → ℤ → Match → Outcome
match_change_slot player slot_id m = elim (in_range slot_id) [
  | none ↦ done m
  | some j ↦ elim (get_elem? m.slots j) [
    | none ↦ (err index_error, m)
    | some target ↦
        if not (is_status target.status opened)
        then done m
        else with_slot player m
            (λ i. done (enqueue_state true (record m { slots = move_slot i j m.slots })))
  ]
]

-- What the lock handler does to the slot that it is aimed at.
abbrev pub toggle_lock : Slot → Slot
toggle_lock s = if is_status s.status locked then set_status opened s else set_status locked s

unfoldable pub match_lock : (ℕ → Bool) → ℕ → ℤ → Match → Outcome
match_lock online player slot_id m = with_host online m (
    if not (player == m.host_id) then done m else elim (in_range slot_id) [
      | none ↦ done m
      | some j ↦ elim (get_elem? m.slots j) [
        | none ↦ (err index_error, m)
        | some target ↦
            if not (is_status target.status locked) && holds m.host_id target
            then done m
            else done (enqueue_state true (modify_slot j toggle_lock m))
      ]
    ])

unfoldable pub match_start_handler : (ℕ → Bool) → (now : ℕ) → ℕ → Match → Outcome
unfolding start
match_start_handler online now player m =
    with_host online m (if player == m.host_id then done (start now m) else done m)

-- The frame is stored, then sent on with the slot's number in byte 11 of the packet: byte 4 of the
-- frame, behind the header's 7.
unfoldable pub match_score_update_handler : ℕ → Bytes → Match → Outcome
match_score_update_handler player play_data m = with_slot player m (λ i.
    let stored = modify_slot i (λ s. record s { last_score_frame = some play_data }) m in
    if ltb 4 (length play_data)
    then done (enqueue (match_score_update (set play_data 4 i)) false [] stored)
    else (err index_error, stored))

-- Mods(z): an int as a member of the flag, for a negative one its low 31 bits.
unfoldable pub mods_of_int : ℤ → ℕ
mods_of_int (pos n) = n
mods_of_int (negsuc n) = if ltb n (2 ^ 31) then 2 ^ 31 - n - 1 else 0

unfoldable pub match_change_mods : (ℕ → Bool) → ℕ → ℤ → Match → Outcome
unfolding mods_of_int
match_change_mods online player wanted m =
    if m.freemods
    then with_host online m (
        let m' =
          if player == m.host_id
          then record m { mods = bit_and (mods_of_int wanted) speed_changing_mods }
          else m in
        with_slot player m' (λ i. done (
          enqueue_state true
            (modify_slot i (λ s. record s { mods = bit_and (mods_of_int wanted) other_mods }) m'))))
    else with_host online m (
        if player == m.host_id
        then done (enqueue_state true (record m { mods = mods_of_int wanted }))
        else done m)

unfoldable pub is_playing : Slot → Bool
is_playing s = is_status s.status playing && not s.loaded

abbrev pub any : (Slot → Bool) → List Slot → Bool
any test [] = false
any test (s ∷ slots) = test s || any test slots

unfoldable pub match_load_complete : ℕ → Match → Outcome
unfolding is_playing
match_load_complete player m = with_slot player m (λ i.
    let m' = modify_slot i (λ s. record s { loaded = true }) m in
    if any is_playing m'.slots
    then done m'
    else done (enqueue match_all_players_loaded false [] m'))

unfoldable pub match_failed : ℕ → Match → Outcome
match_failed player m = with_slot player m (λ i.
    done (
      enqueue (match_player_failed i) false []
        (modify_slot i (λ s. record s { passed = false }) m)))

-- A player in the game who has not asked to skip.
abbrev pub holds_up_skip : Slot → Bool
holds_up_skip s = is_status s.status playing && not s.skipped

unfoldable pub match_skip_request : ℕ → Match → Outcome
match_skip_request player m = with_slot player m (λ i.
    let m' =
      enqueue (match_player_skipped player) true []
        (modify_slot i (λ s. record s { skipped = true }) m) in
    if any holds_up_skip m'.slots then done m' else done (enqueue match_skip false [] m'))

-- The new host is told through `match.host`, which may raise when the id is already written.
unfoldable pub match_transfer_host : (ℕ → Bool) → ℕ → ℤ → Match → Outcome
match_transfer_host online player slot_id m = with_host online m (
    if not (player == m.host_id) then done m else elim (in_range slot_id) [
      | none ↦ done m
      | some j ↦ elim (get_elem? m.slots j) [
        | none ↦ (err index_error, m)
        | some target ↦ elim target.player [
          | none ↦ done m
          | some p ↦
              let m' = record m { host_id = p } in
              with_host online m'
                (done (enqueue_state true (record m' { sent = m.sent ++ host_told p ∷ [] })))
        ]
      ]
    ])

abbrev pub toggle_team : Slot → Slot
toggle_team s =
    if team_value s.team == team_value blue
    then record s { team = red }
    else record s { team = blue }

unfoldable pub match_change_team : ℕ → Match → Outcome
match_change_team player m =
    with_slot player m (λ i. done (enqueue_state false (modify_slot i toggle_team m)))
