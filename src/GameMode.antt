-- ===== src/GameMode.antt =====
-- app/constants/gamemodes.py: the mode of a score from a vanilla mode and its mods, and back. A
-- member is its value.
use bancho_prism_1_0_0_prod.Base.{
  ℕ, ◌+◌, ◌%◌, ◌<◌, ◌≡◌, Bool, true, ◌||◌, Result, ok, err, value_error, ltb, ◌==◌, if◌then◌else◌,
  arith,
}
use bancho_prism_1_0_0_prod.Mods.{Mods, autopilot, relax, filter_invalid_combos}
use bancho_prism_1_0_0_prod.Mods.Combos.{filter-modes}

-- GameMode(mode) has a member below 12, or raises.
unfoldable pub game_mode : ℕ → Result ℕ
game_mode mode = if ltb mode 12 then ok mode else err value_error

unfoldable pub from_params : (mode_vn : ℕ) → Mods → Result ℕ
unfolding game_mode
from_params mode_vn mods =
    game_mode (if mods autopilot then mode_vn + 8 else if mods relax then mode_vn + 4 else mode_vn)

unfoldable pub as_vanilla : ℕ → ℕ
as_vanilla mode = mode % 4

-- RELAX_MANIA, AUTOPILOT_TAIKO, AUTOPILOT_CATCH and AUTOPILOT_MANIA are not used.
unfoldable pub is_valid_gamemode : ℕ → Bool
is_valid_gamemode mode = ltb mode 7 || mode == 8

-- Of a vanilla mode and any mods there is a mode, and it is a variant of the vanilla mode.
pub as_vanilla-from_params :
    (mode_vn : ℕ) (mods : Mods)
    → mode_vn < 4
    → (mode : ℕ) × (from_params mode_vn mods ≡ ok mode) × (as_vanilla mode ≡ mode_vn)
unfolding from_params as_vanilla
as_vanilla-from_params mode_vn mods h = (
  if mods autopilot then mode_vn + 8 else if mods relax then mode_vn + 4 else mode_vn,
  ground (arith, h),
  ground (arith, h),
)

-- Of mods that `filter_invalid_combos` returned for the mode, the variant is one that is used.
pub is_valid_gamemode-from_params :
    (mode_vn : ℕ) (m : Mods)
    → mode_vn < 4
    → (mode : ℕ) × (from_params mode_vn (filter_invalid_combos mode_vn m) ≡ ok mode)
      × (is_valid_gamemode mode ≡ true)
unfolding from_params is_valid_gamemode
is_valid_gamemode-from_params mode_vn m h =
    let mods = filter_invalid_combos mode_vn m in
    let (pilot, no_relax) = filter-modes mode_vn m in
    (
      if mods autopilot then mode_vn + 8 else if mods relax then mode_vn + 4 else mode_vn,
      ground (arith, h),
      ground (arith, h, pilot, no_relax),
    )
