-- ===== src/Match/Validity.antt =====
pub mod Single
pub mod Whole
pub mod Rooms
pub mod Created
-- The invariant of a match's slots, and that every handler keeps it: sixteen slots, nobody in two of
-- them, and a player in every slot whose status says so. `write_match` asserts the last of these.
use Prim.Native.Nat.{bit_and}
use bancho_prism_1_0_0_prod.Base.{
  ℕ, zero, suc, ◌+◌, ◌<◌, ◌≡◌, ◌∙◌, refl, sym, ap, List, [], ◌∷◌, map, Bool, true, false, not, ◌||◌,
  Option, none, some, arith, ◌==◌, get_elem?, set, length, Bool-cases, Option-cases, inl, inr,
  if◌then◌else◌, ok, err, index_error, assertion_error, value_error,
}
use bancho_prism_1_0_0_prod.Base.Int.{ℤ, pos, negsuc}
use bancho_prism_1_0_0_prod.Match.{
  Match, Slot, SlotStatus, status_value, is_status, is_none, modify, find_from, holds, get_slot_id,
  opened, locked, playing, complete, no_map, ready, not_ready, copy_from, reset, start, start_slot,
  unready_players, reset_players_loaded_status,
}
use bancho_prism_1_0_0_prod.Match.Seats.{All, Distinct, Distinct-move, Distinct-set-none}
use bancho_prism_1_0_0_prod.Match.Writes.{
  players, length-modify, players-modify, players-modify-set, players-map, length-map, All-modify,
  All-map, All-at, get_slot_id-holds, get_slot_id-seat,
}
use bancho_prism_1_0_0_prod.Match.Handlers.{Outcome, with_slot, set_status, move_slot}

-- `status & 0b01111100 != 0`: SlotStatus.has_player
unfoldable pub has_player : SlotStatus → Bool
has_player status = not (bit_and (status_value status) 124 == 0)

abbrev pub IsSeated : Slot → Type 0
IsSeated s = has_player s.status ≡ true → is_none s.player ≡ false

pub record IsValid (slots : List Slot) : Type 0 where
  pub sixteen : length slots ≡ 16
  pub seated : All IsSeated slots
  pub distinct : Distinct (players slots)

-- A write that leaves the player alone and keeps the slot seated.
pub modify-IsValid :
    (i : ℕ) (f : Slot → Slot) (slots : List Slot)
    → ((s : Slot) → (f s).player ≡ s.player)
    → ((s : Slot) → get_elem? slots i ≡ some s → IsSeated s → IsSeated (f s))
    → IsValid slots
    → IsValid (modify i f slots)
modify-IsValid i f slots same keep v = record {
  sixteen = length-modify i f slots ∙ v.sixteen;
  seated = All-modify IsSeated i f slots keep v.seated;
  distinct = rw (players-modify i f slots same) v.distinct;
}

pub map-IsValid :
    (f : Slot → Slot) (slots : List Slot)
    → ((s : Slot) → (f s).player ≡ s.player)
    → ((s : Slot) → IsSeated s → IsSeated (f s))
    → IsValid slots
    → IsValid (map f slots)
map-IsValid f slots same keep v = record {
  sixteen = length-map f slots ∙ v.sixteen;
  seated = All-map IsSeated f slots keep v.seated;
  distinct = rw (players-map f slots same) v.distinct;
}

-- A status written to the slot of a player who sits in it.
pub own_status-IsValid :
    (status : SlotStatus) (p i : ℕ) (slots : List Slot)
    → get_slot_id p slots ≡ some i
    → IsValid slots
    → IsValid (modify i (set_status status) slots)
own_status-IsValid status p i slots e v =
    let (s, q, r) = get_slot_id-holds p i slots e in
    modify-IsValid i (set_status status) slots (λ t. refl)
      (λ t at _ _. let same : s ≡ t = cc in rw (← same, r) refl) v

-- Any handler that acts through `with_slot`.
pub with_slot-IsValid :
    (p : ℕ) (m : Match) (k : ℕ → Outcome)
    → ((i : ℕ) → get_slot_id p m.slots ≡ some i → IsValid (k i).1.slots)
    → IsValid m.slots
    → IsValid (with_slot p m k).1.slots
with_slot-IsValid p m k keep v = elim (Option-cases (get_slot_id p m.slots)) [
  | inl none_found ↦ rw (none_found, with_slot) v
  | inr (i, e) ↦ rw (e, with_slot) (keep i e)
]
