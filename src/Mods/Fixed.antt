-- ===== src/Mods/Fixed.antt =====
-- Combinations that `filter_invalid_combos` of app/constants/mods.py leaves as they are.
use bancho_prism_1_0_0_prod.Base.{
  ℕ, ◌≡◌, ◌∙◌, refl, ap, List, [], ◌∷◌, Bool, true, false, not, ◌&&◌, arith, ltb, ◌==◌,
  if◌then◌else◌, Bool-cases, inl, inr, ==_iff,
}
use bancho_prism_1_0_0_prod.Packets.Framing.{member}
use bancho_prism_1_0_0_prod.Mods.{
  Mods, no_fail, hidden, hard_rock, sudden_death, relax, half_time, autopilot, perfect, fade_in,
  key_mods, osu_specific_mods, mania_specific_mods, clear, cannot_fail, count, filter_keys,
  filter_conflicts, filter_mode, filter_invalid_combos, filter_speed, filter_osu_specific,
  filter_mania_specific, filter_mania, filter_fade_in,
}
use bancho_prism_1_0_0_prod.Mods.Filter.{IsCompatible, any_of}

unless : (c : Bool) (a m : Mods) → c ≡ false → (if c then a else m) ≡ m
unless c a m h = rw h refl

clear_all-absent :
    (bits : List ℕ) (m : Mods) (i : ℕ) → any_of bits m ≡ false → (m i && not (member i bits)) ≡ m i
clear_all-absent [] m i h = ground arith
clear_all-absent (bit ∷ bits) m i h =
    let later = clear_all-absent bits m i (ground (arith, h)) in
    let at_bit : (i == bit) ≡ true → m i ≡ false =
      λ e. let same : i ≡ bit = (==_iff i bit).0 e in rw same (ground (arith, h)) in
    ground (arith, later, at_bit)

clear-absent : (bit : ℕ) (m : Mods) (i : ℕ) → m bit ≡ false → clear bit m i ≡ m i
clear-absent bit m i h =
    let at_bit : (i == bit) ≡ true → m i ≡ false =
      λ e. let same : i ≡ bit = (==_iff i bit).0 e in rw same h in
    ground (arith, at_bit)

elsewhere : (here rule : Bool) → here ≡ false → (not here && rule) ≡ false → rule ≡ false
elsewhere here rule e h = ground (arith, e, h)

module _ (mode_vn : ℕ) (m : Mods) (v : IsCompatible mode_vn m) where
  conflicts-fixed : filter_conflicts m ≡ m
  unfolding filter_conflicts
  conflicts-fixed =
      let speed : filter_speed m ≡ m = rw v.speed (unless _ (clear half_time m) m v.half) in
      let easy_hard = unless _ (clear hard_rock m) m v.easy_hard in
      let death =
        unless (cannot_fail m && m sudden_death) (clear sudden_death m) m
          (ground (arith, v.death)) in
      let whole =
        unless (cannot_fail m && m perfect) (clear perfect m) m (ground (arith, v.death)) in
      let fail = unless _ (clear no_fail m) m v.fail in
      let twice = unless _ (clear sudden_death m) m v.death_twice in
      rw (speed, easy_hard, death, whole, fail) twice

  osu-fixed : filter_osu_specific mode_vn m ≡ m
  osu-fixed = elim (Bool-cases (mode_vn == 0)) [
    | inl is_osu ↦ rw is_osu refl
    | inr other ↦
        let absent = elsewhere (mode_vn == 0) (any_of osu_specific_mods m) other v.osu in
        rw other (λ k i. clear_all-absent osu_specific_mods m i absent k)
  ]

  mania_specific-fixed : filter_mania_specific mode_vn m ≡ m
  mania_specific-fixed = elim (Bool-cases (mode_vn == 3)) [
    | inl is_mania ↦ rw is_mania refl
    | inr other ↦
        let absent = elsewhere (mode_vn == 3) (any_of mania_specific_mods m) other v.mania in
        rw other (λ k i. clear_all-absent mania_specific_mods m i absent k)
  ]

  mania-fixed : filter_mania mode_vn m ≡ m
  mania-fixed = elim (Bool-cases (mode_vn == 3)) [
    | inl is_mania ↦
        let no_relax : m relax ≡ false = ground (arith, is_mania, v.no_relax) in
        let same : clear relax m ≡ m = λ k i. clear-absent relax m i no_relax k in
        let fade : (m hidden && m fade_in) ≡ false = ground (arith, is_mania, v.fade) in
        rw is_mania (ap filter_fade_in same ∙ unless _ (clear fade_in m) m fade)
    | inr other ↦ rw other refl
  ]

  keys-fixed : filter_keys m ≡ m
  unfolding filter_keys
  keys-fixed = let few : ltb 1 (count key_mods m) ≡ false = ground (arith, v.keys) in rw few refl

  mode-fixed : filter_mode mode_vn m ≡ m
  unfolding filter_mode
  mode-fixed =
      let pilot = unless _ (clear autopilot m) m v.pilot in
      rw (osu-fixed, mania_specific-fixed, pilot) mania-fixed

  -- Mods of which no two conflict, which exist in the mode and of which at most one is a key are
  -- returned as they are.
  pub filter_invalid_combos-fixed : filter_invalid_combos mode_vn m ≡ m
  unfolding filter_invalid_combos
  filter_invalid_combos-fixed = rw (conflicts-fixed, mode-fixed) keys-fixed
