-- ===== src/Tests/Rules.antt =====
-- Runs of the rules about mods and modes.
use bancho_prism_1_0_0_prod.Base.{ℕ, ◌≤◌, ◌≡◌, refl, true, ◌&&◌, arith, ok}
use bancho_prism_1_0_0_prod.Mods.{
  Mods, mods_of, nightcore, half_time, filter_invalid_combos, key_mods, count,
}
use bancho_prism_1_0_0_prod.Mods.Filter.{IsCompatible}
use bancho_prism_1_0_0_prod.Mods.Combos.{
  filter_invalid_combos-IsCompatible, filter_invalid_combos_keeps_half_time,
}
use bancho_prism_1_0_0_prod.Mods.Fixed.{filter_invalid_combos-fixed}
use bancho_prism_1_0_0_prod.GameMode.{
  from_params, as_vanilla, is_valid_gamemode, as_vanilla-from_params, is_valid_gamemode-from_params,
}

-- HD and HR, and the same with EZ, RX, SD and two keys.
abbrev hidden_hard : Mods
hidden_hard = mods_of 24

abbrev muddle : Mods
muddle = mods_of 98490

abbrev all_speeds : Mods
all_speeds = mods_of 832

filter_invalid_combos-IsCompatible_example : IsCompatible 3 (filter_invalid_combos 3 muddle)
filter_invalid_combos-IsCompatible_example = filter_invalid_combos-IsCompatible 3 muddle refl

few_keys : count key_mods hidden_hard ≤ 1
unfolding count
few_keys = omega arith

hidden_hard-IsCompatible : IsCompatible 1 hidden_hard
hidden_hard-IsCompatible = record {
  speed = refl;
  half = refl;
  easy_hard = refl;
  death = refl;
  fail = refl;
  death_twice = refl;
  osu = refl;
  mania = refl;
  pilot = refl;
  no_relax = refl;
  fade = refl;
  keys = few_keys;
}

filter_invalid_combos-fixed_example : filter_invalid_combos 1 hidden_hard ≡ hidden_hard
filter_invalid_combos-fixed_example =
    filter_invalid_combos-fixed 1 hidden_hard hidden_hard-IsCompatible

filter_invalid_combos_keeps_half_time_example :
    let r = filter_invalid_combos 0 all_speeds in (r nightcore && r half_time) ≡ true
filter_invalid_combos_keeps_half_time_example =
    filter_invalid_combos_keeps_half_time 0 all_speeds refl

as_vanilla-from_params_example :
    (mode : ℕ) × (from_params 1 muddle ≡ ok mode) × (as_vanilla mode ≡ 1)
as_vanilla-from_params_example = as_vanilla-from_params 1 muddle (omega arith)

is_valid_gamemode-from_params_example :
    (mode : ℕ) × (from_params 1 (filter_invalid_combos 1 muddle) ≡ ok mode)
    × (is_valid_gamemode mode ≡ true)
is_valid_gamemode-from_params_example = is_valid_gamemode-from_params 1 muddle (omega arith)
