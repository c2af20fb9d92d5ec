-- ===== src/Match/Validity/Single.antt =====
-- The handlers that write one slot keep the slots valid.
use Prim.Native.Nat.{bit_and}
use bancho_prism_1_0_0_prod.Base.{
  ℕ, ◌≡◌, refl, Bool, true, arith, ◌==◌, length, Bool-cases, inl, inr, ltb,
}
use bancho_prism_1_0_0_prod.Base.Int.{ℤ}
use bancho_prism_1_0_0_prod.Utf8.{Bytes}
use bancho_prism_1_0_0_prod.Match.{
  Match, Slot, modify, no_map, ready, not_ready, enqueue_state, other_mods, speed_changing_mods,
}
use bancho_prism_1_0_0_prod.Match.Handlers.{
  done, mods_of_int, with_slot, modify_slot, match_ready, match_no_beatmap, match_not_ready,
  match_has_beatmap, match_lock, toggle_lock, toggle_team, match_score_update_handler,
  match_change_mods, match_load_complete, match_failed, match_skip_request, match_transfer_host,
  match_change_team, any, is_playing, holds_up_skip,
}
use bancho_prism_1_0_0_prod.Match.Validity.{
  IsSeated, IsValid, has_player, modify-IsValid, own_status-IsValid, with_slot-IsValid,
}

module _ (p : ℕ) (m : Match) (v : IsValid m.slots) where
  pub match_ready-IsValid : IsValid (match_ready p m).1.slots
  unfolding match_ready
  match_ready-IsValid = with_slot-IsValid p m _ (λ i e. own_status-IsValid ready p i m.slots e v) v

  pub match_no_beatmap-IsValid : IsValid (match_no_beatmap p m).1.slots
  unfolding match_no_beatmap
  match_no_beatmap-IsValid =
      with_slot-IsValid p m _ (λ i e. own_status-IsValid no_map p i m.slots e v) v

  pub match_not_ready-IsValid : IsValid (match_not_ready p m).1.slots
  unfolding match_not_ready
  match_not_ready-IsValid =
      with_slot-IsValid p m _ (λ i e. own_status-IsValid not_ready p i m.slots e v) v

  pub match_has_beatmap-IsValid : IsValid (match_has_beatmap p m).1.slots
  unfolding match_has_beatmap
  match_has_beatmap-IsValid =
      with_slot-IsValid p m _ (λ i e. own_status-IsValid not_ready p i m.slots e v) v

  -- A write of fields that say nothing of who sits where.
  plain_write :
      (i : ℕ) (f : Slot → Slot)
      → ((s : Slot) → (f s).player ≡ s.player)
      → ((s : Slot) → (f s).status ≡ s.status)
      → IsValid (modify i f m.slots)
  plain_write i f same_player same_status =
      modify-IsValid i f m.slots same_player (λ s _ h e. rw same_player (h (rw same_status at e))) v

  pub match_score_update-IsValid :
      (play_data : Bytes) → IsValid (match_score_update_handler p play_data m).1.slots
  unfolding match_score_update_handler
  match_score_update-IsValid play_data =
      with_slot-IsValid p m _
        (λ i e. elim (Bool-cases (ltb 4 (length play_data))) [
          | inl long ↦ rw long (plain_write i _ (λ s. refl) (λ s. refl))
          | inr short ↦ rw short (plain_write i _ (λ s. refl) (λ s. refl))
        ])
        v

  pub match_failed-IsValid : IsValid (match_failed p m).1.slots
  unfolding match_failed
  match_failed-IsValid = with_slot-IsValid p m _ (λ i e. plain_write i _ (λ s. refl) (λ s. refl)) v

  pub match_change_team-IsValid : IsValid (match_change_team p m).1.slots
  unfolding match_change_team
  match_change_team-IsValid =
      with_slot-IsValid p m _
        (λ i e. plain_write i toggle_team (λ s. ground arith) (λ s. ground arith)) v

  pub match_load_complete-IsValid : IsValid (match_load_complete p m).1.slots
  unfolding match_load_complete
  match_load_complete-IsValid =
      with_slot-IsValid p m _
        (λ i e.
          elim (Bool-cases (any is_playing (modify i (λ s. record s { loaded = true }) m.slots))) [
            | inl left ↦ rw left (plain_write i _ (λ s. refl) (λ s. refl))
            | inr none_left ↦ rw none_left (plain_write i _ (λ s. refl) (λ s. refl))
          ])
        v

  pub match_skip_request-IsValid : IsValid (match_skip_request p m).1.slots
  unfolding match_skip_request
  match_skip_request-IsValid =
      with_slot-IsValid p m _
        (λ i e.
          elim (Bool-cases
            (any holds_up_skip (modify i (λ s. record s { skipped = true }) m.slots))) [
              | inl left ↦ rw left (plain_write i _ (λ s. refl) (λ s. refl))
              | inr none_left ↦ rw none_left (plain_write i _ (λ s. refl) (λ s. refl))
            ])
        v

toggle_lock-IsSeated : (s : Slot) → IsSeated (toggle_lock s)
unfolding has_player
toggle_lock-IsSeated s e = ground arith

module _ (online : ℕ → Bool) (p : ℕ) (m : Match) (v : IsValid m.slots) where
  own_mods :
      (mods : ℕ) (m' : Match)
      → IsValid m'.slots
      → IsValid
          (with_slot p m' (λ i.
            done (enqueue_state true (modify_slot i (λ s. record s { mods = mods }) m')))).1.slots
  own_mods mods m' v' =
      with_slot-IsValid p m' _ (λ i e. plain_write p m' v' i _ (λ s. refl) (λ s. refl)) v'

  pub match_change_mods-IsValid :
      (wanted : ℤ) → IsValid (match_change_mods online p wanted m).1.slots
  unfolding match_change_mods
  match_change_mods-IsValid wanted =
      let mods = bit_and (mods_of_int wanted) other_mods in
      let host_m = record m { mods = bit_and (mods_of_int wanted) speed_changing_mods } in
      elim (Bool-cases (p == m.host_id)) [
        | inl is_host ↦ rw is_host (ground (arith, own_mods mods host_m v))
        | inr other ↦ rw other (ground (arith, own_mods mods m v))
      ]

  toggled : (j : ℕ) → IsValid (modify j toggle_lock m.slots)
  toggled j =
      modify-IsValid j toggle_lock m.slots (λ s. ground arith) (λ s _ _. toggle_lock-IsSeated s) v

  pub match_lock-IsValid : (slot_id : ℤ) → IsValid (match_lock online p slot_id m).1.slots
  unfolding match_lock
  match_lock-IsValid slot_id = grind (arith, toggled)

  pub match_transfer_host-IsValid :
      (slot_id : ℤ) → IsValid (match_transfer_host online p slot_id m).1.slots
  unfolding match_transfer_host
  match_transfer_host-IsValid slot_id = ground arith
