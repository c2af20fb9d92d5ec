-- ===== src/Match/Complete.antt =====
-- MATCH_COMPLETE of app/api/domains/cho.py: the last player to finish ends the game, and what the
-- match history keeps of it is taken from the slots.
use Prim.Native.Nat.{bit_or}
use bancho_prism_1_0_0_prod.Base.{
  ℕ, List, [], ◌∷◌, ◌++◌, Bool, true, false, not, ◌||◌, Option, none, some, ◌==◌, if◌then◌else◌,
}
use bancho_prism_1_0_0_prod.Match.{
  Match, Slot, playing, complete, is_status, ParticipantScoreFrame, player_ids, unready_players,
  reset_players_loaded_status, enqueue, enqueue_state, match_complete, matchpoints_due,
  game_persisted,
}
use bancho_prism_1_0_0_prod.Match.Handlers.{Outcome, done, with_slot, modify_slot, set_status, any}

-- `player_id in ids`
abbrev pub contains : ℕ → List ℕ → Bool
contains p [] = false
contains p (q ∷ ids) = q == p || contains p ids

-- The slots in `was_playing`: those of players who are not in `not_playing`.
abbrev pub was_playing_slots : (not_playing : List ℕ) → List Slot → List Slot
was_playing_slots not_playing [] = []
was_playing_slots not_playing (s ∷ slots) =
    let rest = was_playing_slots not_playing slots in
    elim s.player [ none ↦ rest | some p ↦ if contains p not_playing then rest else s ∷ rest ]

-- Freemods: the match's mods or the slot's own.
abbrev pub effective_mods : Match → Slot → ℕ
effective_mods m s = if m.freemods then bit_or m.mods s.mods else m.mods

abbrev score_frame : Match → ℕ → Slot → Option ParticipantScoreFrame
score_frame m p s = elim s.last_score_frame [
  | none ↦ none
  | some frame ↦ some (record {
    user_id = p;
    team = s.team;
    mods = effective_mods m s;
    passed = s.passed;
    raw_frame = frame;
  })
]

abbrev pub score_frames : Match → List Slot → List ParticipantScoreFrame
score_frames m [] = []
score_frames m (s ∷ slots) =
    let rest = score_frames m slots in
    elim s.player [
      | none ↦ rest
      | some p ↦ elim (score_frame m p s) [ none ↦ rest | some f ↦ f ∷ rest ]
    ]

-- The end of the game, once no slot is playing; `m` has the last player's slot complete.
unfoldable pub finish_game : Match → Match
unfolding unready_players reset_players_loaded_status
finish_game m =
    let not_playing = player_ids (λ s. not (is_status s.status complete)) m.slots in
    let slots = reset_players_loaded_status (unready_players complete m.slots) in
    let was_playing =
      reset_players_loaded_status
        (unready_players complete (was_playing_slots not_playing m.slots)) in
    let participants = player_ids (λ s. true) was_playing in
    let ended = enqueue_state true (
      enqueue match_complete false not_playing (record m { slots = slots; in_progress = false })) in
    let scored =
      if m.is_scrimming
      then record ended { sent = ended.sent ++ matchpoints_due participants ∷ [] }
      else ended in
    record scored {
      sent = scored.sent ++ game_persisted participants (score_frames m was_playing) ∷ [];
    }

unfoldable pub match_complete_handler : ℕ → Match → Outcome
unfolding finish_game
match_complete_handler player m = with_slot player m (λ i.
    let m' = modify_slot i (set_status complete) m in
    if any (λ s. is_status s.status playing) m'.slots then done m' else done (finish_game m'))
