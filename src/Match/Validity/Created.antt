-- ===== src/Match/Validity/Created.antt =====
-- The CREATE_MATCH handler of app/api/domains/cho.py: the matches that it leaves.
use bancho_prism_1_0_0_prod.Base.{
  ℕ, zero, suc, ◌<◌, ◌≡◌, ◌∙◌, refl, sym, ap, List, [], ◌∷◌, Bool, true, false, Option, none, some,
  arith, length, get_elem?, set, replicate, Option-cases, inl, inr, get_elem?-set_self,
}
use bancho_prism_1_0_0_prod.Utf8.{Text}
use bancho_prism_1_0_0_prod.Packets.MatchData.{MultiplayerMatch}
use bancho_prism_1_0_0_prod.Match.{
  Match, Slot, new_slot, is_none, MatchTeamTypes, MatchWinConditions,
}
use bancho_prism_1_0_0_prod.Match.Settings.{validate_match_data, team_type_of, win_condition_of}
use bancho_prism_1_0_0_prod.Match.Membership.{Room, join_match}
use bancho_prism_1_0_0_prod.Match.Create.{
  Lobby, first_free, new_match, match_create, settle, mode_of, assemble,
}
use bancho_prism_1_0_0_prod.Match.Seats.{All}
use bancho_prism_1_0_0_prod.Match.Validity.{IsValid, IsSeated, has_player}
use bancho_prism_1_0_0_prod.Match.Validity.Rooms.{join_match-IsValid}

-- A place in the list of matches is free, or its match has valid slots.
abbrev pub IsSound : Option Match → Type 0
IsSound none = Unit
IsSound (some m) = IsValid m.slots

All-set :
    (matches : List (Option Match)) (i : ℕ) (m : Option Match)
    → All IsSound matches
    → IsSound m
    → All IsSound (set matches i m)
All-set [] i m h k = tt
All-set (n ∷ matches) zero m h k = (k, h.1)
All-set (n ∷ matches) (suc i) m h k = (h.0, All-set matches i m h.1 k)

fresh-IsSeated : (n : ℕ) → All IsSeated (replicate n new_slot)
unfolding has_player
fresh-IsSeated zero = tt
fresh-IsSeated (suc n) = ((λ e. cc), fresh-IsSeated n)

fresh-IsValid : IsValid (replicate 16 new_slot)
fresh-IsValid = record { sixteen = refl; seated = fresh-IsSeated 16; distinct = tt }

abbrev slots_of : Option Match → List Slot
slots_of none = replicate 16 new_slot
slots_of (some m) = m.slots

assemble-slots :
    (id host : ℕ) (d : MultiplayerMatch) (mode : Option ℕ) (wins : Option MatchWinConditions)
    (teams : Option MatchTeamTypes)
    → slots_of (assemble id host d mode wins teams) ≡ replicate 16 new_slot
assemble-slots id host d none wins teams = refl
assemble-slots id host d (some mode) none teams = refl
assemble-slots id host d (some mode) (some win_condition) none = refl
assemble-slots id host d (some mode) (some win_condition) (some team_type) = refl

new_match-slots :
    (id host : ℕ) (d : MultiplayerMatch) (m : Match)
    → new_match id host d ≡ some m
    → m.slots ≡ replicate 16 new_slot
unfolding new_match
new_match-slots id host d m e =
    sym (ap slots_of e)
    ∙ assemble-slots id host d (mode_of d.mode) (win_condition_of d.win_condition)
        (team_type_of d.team_type)

-- The room that the creator joins.
abbrev room_of : Lobby → Match → Room
room_of l m = record { player = l.creator; match = m; lobby = l.lobby; listed = true }

settled-IsSound :
    (online : ℕ → Bool) (passwd : Text) (id : ℕ) (l : Lobby) (m : Match)
    → All IsSound l.matches
    → m.slots ≡ replicate 16 new_slot
    → All IsSound (settle id l (join_match online passwd (room_of l m))).1.matches
settled-IsSound online passwd id l m h fresh =
    All-set l.matches id _ h
      (join_match-IsValid online passwd (room_of l m) (rw fresh fresh-IsValid) (rw fresh tt))

-- Whatever a player sends to create a match, the matches that the session lists keep valid slots,
-- and a new one has them.
pub match_create-IsSound :
    (online : ℕ → Bool) (d : MultiplayerMatch) (l : Lobby)
    → All IsSound l.matches
    → All IsSound (match_create online d l).1.matches
unfolding match_create
match_create-IsSound online d l h = elim (Option-cases (first_free l.matches)) [
  | inl full ↦ ground (arith, full, h)
  | inr (id, e) ↦ elim (Option-cases (new_match id l.creator.id d)) [
    | inl bad ↦ ground (arith, e, bad, h)
    | inr (m, p) ↦
        let settled =
          settled-IsSound online d.passwd id l m h (new_match-slots id l.creator.id d m p) in
        ground (arith, e, p, h, settled)
  ]
]

-- A player who is in a match creates one, with data that is valid: the new match is listed with
-- nobody in it, and the player stays in the other.
pub match_create_while_in_match :
    (online : ℕ → Bool) (d : MultiplayerMatch) (l : Lobby) (id : ℕ) (m : Match)
    → validate_match_data d l.creator.id ≡ true
    → l.creator.restricted ≡ false
    → l.creator.silenced ≡ false
    → is_none l.creator.match_id ≡ false
    → first_free l.matches ≡ some id
    → id < length l.matches
    → new_match id l.creator.id d ≡ some m
    → let r = (match_create online d l).1 in
      (get_elem? r.matches id ≡ some (some m))
      × (m.slots ≡ replicate 16 new_slot)
      × (r.creator.match_id ≡ l.creator.match_id)
unfolding match_create join_match
match_create_while_in_match online d l id m valid free heard busy e below p =
    rw (valid, free, heard, e, p, busy)
      (get_elem?-set_self l.matches id (some m) below, new_match-slots id l.creator.id d m p, refl)
