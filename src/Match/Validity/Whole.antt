-- ===== src/Match/Validity/Whole.antt =====
-- The handlers that write several slots keep the slots valid: the move to another slot, the start and
-- the end of a game, and the settings.
use Prim.Native.Nat.{bit_and}
use bancho_prism_1_0_0_prod.Base.{
  ℕ, ◌≡◌, ◌∙◌, refl, List, Bool, true, Option, none, some, arith, Bool-cases, Option-cases, inl,
  inr, ok, err,
}
use bancho_prism_1_0_0_prod.Base.Int.{ℤ}
use bancho_prism_1_0_0_prod.Packets.MatchData.{MultiplayerMatch}
use bancho_prism_1_0_0_prod.Match.{
  Match, Slot, SlotStatus, is_status, modify, get_slot_id, opened, playing, complete, ready,
  copy_from, reset, start, start_slot, unready_players, reset_players_loaded_status, enqueue_state,
  other_mods,
}
use bancho_prism_1_0_0_prod.Match.Seats.{Distinct-move}
use bancho_prism_1_0_0_prod.Match.Writes.{
  players, length-modify, players-modify-set, All-modify, All-at, get_slot_id-holds,
  get_slot_id-seat,
}
use bancho_prism_1_0_0_prod.Match.Handlers.{
  Outcome, done, with_slot, in_range, set_status, move_slot, modify_slot, match_change_slot,
  match_start_handler, any,
}
use bancho_prism_1_0_0_prod.Match.Complete.{finish_game, match_complete_handler}
use bancho_prism_1_0_0_prod.Match.Settings.{
  Bmap, change_freemods, change_map, change_team_type, change_win_condition, match_change_settings,
  match_change_password, each_player, with_mods, with_team, default_team, ◌then_do◌, apply_settings,
}
use bancho_prism_1_0_0_prod.Match.Validity.{
  IsSeated, IsValid, has_player, map-IsValid, own_status-IsValid, with_slot-IsValid,
}

reset-IsSeated : (s : Slot) → IsSeated (reset opened s)
unfolding has_player
reset-IsSeated s e = ground arith

move_slot-IsValid :
    (p i j : ℕ) (slots : List Slot)
    → get_slot_id p slots ≡ some i
    → IsValid slots
    → IsValid (move_slot i j slots)
unfolding move_slot
move_slot-IsValid p i j slots e v =
    let (s, at, r) = get_slot_id-holds p i slots e in
    let moved = modify j (λ t. copy_from t s) slots in
    rw (at, move_slot)
      (record {
        sixteen =
            length-modify i (reset opened) moved
            ∙ length-modify j (λ t. copy_from t s) slots
            ∙ v.sixteen;
        seated =
            All-modify IsSeated i (reset opened) moved (λ t _ _. reset-IsSeated t)
              (All-modify IsSeated j (λ t. copy_from t s) slots
                (λ t _ _. All-at IsSeated i slots s at v.seated) v.seated);
        distinct =
            rw
              (
                players-modify-set i (reset opened) moved none (λ t. refl),
                players-modify-set j (λ t. copy_from t s) slots (some p) (λ t. r),
              )
              (Distinct-move p i j (players slots) v.distinct (get_slot_id-seat p i slots e));
      })

module _ (p : ℕ) (m : Match) (v : IsValid m.slots) where
  moves :
      (j : ℕ)
      → IsValid
          (with_slot p m
            (λ i. done (enqueue_state true (record m { slots = move_slot i j m.slots })))).1.slots
  moves j = with_slot-IsValid p m _ (λ i e. move_slot-IsValid p i j m.slots e v) v

  pub match_change_slot-IsValid : (slot_id : ℤ) → IsValid (match_change_slot p slot_id m).1.slots
  unfolding match_change_slot
  match_change_slot-IsValid slot_id = elim (Option-cases (in_range slot_id)) [
    | inl outside ↦ rw (outside, match_change_slot) v
    | inr (j, e) ↦ ground (arith, e, moves j)
  ]

start_slot-IsSeated : (s : Slot) → IsSeated s → IsSeated (start_slot s)
unfolding has_player
start_slot-IsSeated s h e = ground (arith, h)

start-IsValid : (now : ℕ) (m : Match) → IsValid m.slots → IsValid (start now m).slots
unfolding start
start-IsValid now m v = map-IsValid start_slot m.slots (λ s. refl) start_slot-IsSeated v

unready-IsValid :
    (expected : SlotStatus) (slots : List Slot)
    → has_player expected ≡ true
    → IsValid slots
    → IsValid (unready_players expected slots)
unfolding unready_players
unready-IsValid expected slots h v =
    map-IsValid _ slots (λ s. ground arith) (λ s k e. unfold has_player in ground (arith, k, h)) v

loaded-IsValid : (slots : List Slot) → IsValid slots → IsValid (reset_players_loaded_status slots)
unfolding reset_players_loaded_status
loaded-IsValid slots v = map-IsValid _ slots (λ s. refl) (λ s h. h) v

finish_game-IsValid : (m : Match) → IsValid m.slots → IsValid (finish_game m).slots
unfolding finish_game
finish_game-IsValid m v = elim (Bool-cases m.is_scrimming) [
  | inl scrim ↦
      rw scrim (loaded-IsValid _ (unready-IsValid complete m.slots (unfold has_player in refl) v))
  | inr plain ↦
      rw plain (loaded-IsValid _ (unready-IsValid complete m.slots (unfold has_player in refl) v))
]

module _ (p : ℕ) (m : Match) (v : IsValid m.slots) where
  pub match_start-IsValid :
      (online : ℕ → Bool) (now : ℕ) → IsValid (match_start_handler online now p m).1.slots
  unfolding match_start_handler
  match_start-IsValid online now = ground (arith, start-IsValid now m v)

  pub match_complete-IsValid : IsValid (match_complete_handler p m).1.slots
  unfolding match_complete_handler
  match_complete-IsValid =
      with_slot-IsValid p m _
        (λ i e.
          let ended = own_status-IsValid complete p i m.slots e v in
          elim (Bool-cases
            (any (λ s. is_status s.status playing) (modify i (set_status complete) m.slots))) [
              | inl left ↦ rw left ended
              | inr none_left ↦
                  rw none_left (finish_game-IsValid (modify_slot i (set_status complete) m) ended)
            ])
        v

each_player-IsValid :
    (f : Slot → Slot) (slots : List Slot)
    → ((s : Slot) → (f s).player ≡ s.player)
    → ((s : Slot) → (f s).status ≡ s.status)
    → IsValid slots
    → IsValid (each_player f slots)
each_player-IsValid f slots same_player same_status v =
    map-IsValid _ slots (λ s. ground (arith, same_player s))
      (λ s h e. ground (arith, same_player s, same_status s, h)) v

-- A stage after a stage.
then_do-IsValid :
    (o : Outcome) (k : Match → Outcome)
    → ((m : Match) → IsValid m.slots → IsValid (k m).1.slots)
    → IsValid o.1.slots
    → IsValid (o then_do k).1.slots
unfolding ◌then_do◌
then_do-IsValid (ok u, m) k keep v = keep m v
then_do-IsValid (err e, m) k keep v = v

module _ (d : MultiplayerMatch) (m : Match) (v : IsValid m.slots) where
  with_mods-IsValid : (mods : ℕ) → IsValid (each_player (with_mods mods) m.slots)
  with_mods-IsValid mods = each_player-IsValid _ m.slots (λ s. refl) (λ s. refl) v

  change_freemods-IsValid : IsValid (change_freemods d m).1.slots
  unfolding change_freemods
  change_freemods-IsValid =
      ground (arith, with_mods-IsValid 0, with_mods-IsValid (bit_and m.mods other_mods))

  change_map-IsValid :
      (online : ℕ → Bool) (host_mode : ℕ) (bmap : Option Bmap)
      → IsValid (change_map online host_mode bmap d m).1.slots
  unfolding change_map
  change_map-IsValid online host_mode bmap =
      ground (arith, unready-IsValid ready m.slots (unfold has_player in refl) v)

  change_team_type-IsValid : IsValid (change_team_type d m).1.slots
  unfolding change_team_type
  change_team_type-IsValid = ground (
    arith,
    each_player-IsValid (with_team (default_team d.team_type)) m.slots (λ s. refl) (λ s. refl) v,
  )

  change_win_condition-IsValid : IsValid (change_win_condition d m).1.slots
  unfolding change_win_condition
  change_win_condition-IsValid = ground arith

module _ (online : ℕ → Bool) (host_mode : ℕ) (bmap : Option Bmap) (d : MultiplayerMatch) where
  apply_settings-IsValid :
      (m : Match) → IsValid m.slots → IsValid (apply_settings online host_mode bmap d m).1.slots
  unfolding apply_settings
  apply_settings-IsValid m v =
      then_do-IsValid _ _ (λ m' h. h)
        (then_do-IsValid _ _ (change_win_condition-IsValid d) (
          then_do-IsValid _ _ (change_team_type-IsValid d) (
            then_do-IsValid _ _ (λ m' h. change_map-IsValid d m' h online host_mode bmap)
              (change_freemods-IsValid d m v))))

  pub match_change_settings-IsValid :
      (p : ℕ) (m : Match)
      → IsValid m.slots
      → IsValid (match_change_settings online host_mode bmap d p m).1.slots
  unfolding match_change_settings
  match_change_settings-IsValid p m v = ground (arith, apply_settings-IsValid m v)

  pub match_change_password-IsValid :
      (p : ℕ) (m : Match) → IsValid m.slots → IsValid (match_change_password online d p m).1.slots
  unfolding match_change_password
  match_change_password-IsValid p m v = ground arith
