-- ===== src/Mods/Combos.antt =====
-- The whole of `filter_invalid_combos` in app/constants/mods.py.
use bancho_prism_1_0_0_prod.Base.{ℕ, ◌≡◌, true, false, not, ◌&&◌, arith, ◌==◌}
use bancho_prism_1_0_0_prod.Mods.{
  Mods, no_fail, easy, hidden, hard_rock, sudden_death, double_time, relax, half_time, nightcore,
  spun_out, autopilot, perfect, fade_in, osu_specific_mods, mania_specific_mods, filter_keys,
  filter_conflicts, filter_mode, filter_invalid_combos,
}
use bancho_prism_1_0_0_prod.Mods.Filter.{
  IsWithin, IsCompatible, keys-IsWithin, keys-single, conflicts-IsWithin, conflicts-speed,
  conflicts-half, conflicts_keep_half_time, conflicts-easy, conflicts-death, mode-IsWithin,
  mode-osu, mode-mania, mode-pilot, mode-fade, any_of-within,
}

-- A pair that a larger combination does not have.
both-within : (a b : Mods) → IsWithin a b → (x y : ℕ) → (b x && b y) ≡ false → (a x && a y) ≡ false
both-within a b h x y e = ground (arith, e, h x, h y)

module _ (mode_vn : ℕ) (m : Mods) where
  abbrev conflict_free : Mods
  conflict_free = filter_conflicts m

  abbrev of_mode : Mods
  of_mode = filter_mode mode_vn conflict_free

  result-of_mode : IsWithin (filter_invalid_combos mode_vn m) of_mode
  unfolding filter_invalid_combos
  result-of_mode = keys-IsWithin of_mode

  result-conflict_free : IsWithin (filter_invalid_combos mode_vn m) conflict_free
  result-conflict_free i e = mode-IsWithin mode_vn conflict_free i (result-of_mode i e)

  -- The result has no mod that the argument lacks.
  filter_invalid_combos_within : (i : ℕ) → filter_invalid_combos mode_vn m i ≡ true → m i ≡ true
  filter_invalid_combos_within i e = conflicts-IsWithin m i (result-conflict_free i e)

  -- What the mode rules out of the two mods that have modes of their own.
  pub filter-modes :
      let r = filter_invalid_combos mode_vn m in
      ((not (mode_vn == 0) && r autopilot) ≡ false) × ((mode_vn == 3 && r relax) ≡ false)
  filter-modes =
      let v = result-of_mode in
      (
        ground (arith, mode-osu mode_vn conflict_free, v autopilot),
        ground (arith, mode-fade mode_vn conflict_free, v relax),
      )

  -- Unless the argument has DT, NC and HT at once, no two mods of the result conflict, all of them
  -- exist in the mode, and at most one is a key.
  pub filter_invalid_combos-IsCompatible :
      (m double_time && m nightcore && m half_time) ≡ false
      → IsCompatible mode_vn (filter_invalid_combos mode_vn m)
  unfolding filter_invalid_combos
  filter_invalid_combos-IsCompatible h =
      let r = filter_invalid_combos mode_vn m in
      let w = result-conflict_free in
      let v = result-of_mode in
      let (fail_death, fail, twice) = conflicts-death m in
      let (no_relax, fade) = mode-fade mode_vn conflict_free in
      record {
        speed = both-within r _ w double_time nightcore (conflicts-speed m);
        half = ground (arith, conflicts-half m h, w double_time, w nightcore, w half_time);
        easy_hard = both-within r _ w easy hard_rock (conflicts-easy m);
        death =
            ground (arith, fail_death, w no_fail, w relax, w autopilot, w sudden_death, w perfect);
        fail = ground (arith, fail, w no_fail, w relax, w autopilot);
        death_twice = both-within r _ w perfect sudden_death twice;
        osu =
            ground
              (arith, mode-osu mode_vn conflict_free, any_of-within osu_specific_mods r of_mode v);
        mania = ground (
          arith,
          mode-mania mode_vn conflict_free,
          any_of-within mania_specific_mods r of_mode v,
        );
        pilot = ground (arith, mode-pilot mode_vn conflict_free, v autopilot, v spun_out, v relax);
        no_relax = ground (arith, no_relax, v relax);
        fade = ground (arith, fade, v hidden, v fade_in);
        keys = keys-single of_mode;
      }

-- The steps after the first keep the bits of NC and HT.
mode_keeps_half_time :
    (mode_vn : ℕ) (m : Mods)
    → (m nightcore && m half_time) ≡ true
    → (filter_mode mode_vn m nightcore && filter_mode mode_vn m half_time) ≡ true
unfolding filter_mode
mode_keeps_half_time mode_vn m h = ground (arith, h)

keys_keep_half_time :
    (m : Mods)
    → (m nightcore && m half_time) ≡ true
    → (filter_keys m nightcore && filter_keys m half_time) ≡ true
unfolding filter_keys
keys_keep_half_time m h = ground (arith, h)

-- Given DT, NC and HT at once, the result has NC and HT, which conflict.
pub filter_invalid_combos_keeps_half_time :
    (mode_vn : ℕ) (m : Mods)
    → (m double_time && m nightcore && m half_time) ≡ true
    → let r = filter_invalid_combos mode_vn m in (r nightcore && r half_time) ≡ true
unfolding filter_invalid_combos
filter_invalid_combos_keeps_half_time mode_vn m h =
    keys_keep_half_time _ (mode_keeps_half_time mode_vn _ (conflicts_keep_half_time m h))
