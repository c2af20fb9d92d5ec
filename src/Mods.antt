-- ===== src/Mods.antt =====
-- app/constants/mods.py: a combination of mods, and `filter_invalid_combos`. A combination is the
-- set of the bits of its members: `self & A` tests bits, and `self &= ~A` clears them.
pub mod Filter
pub mod Combos
pub mod Fixed
use bancho_prism_1_0_0_prod.Base.{
  ℕ, zero, suc, ◌/◌, ◌%◌, ◌^◌, List, [], ◌∷◌, ◌++◌, Bool, true, false, not, ◌&&◌, ◌||◌, Option,
  none, some, ltb, ◌==◌, if◌then◌else◌,
}
use bancho_prism_1_0_0_prod.Packets.Framing.{member}

abbrev pub Mods : Type 0
Mods = ℕ → Bool

-- Mods(n): the bits of a number.
abbrev pub mods_of : ℕ → Mods
mods_of n bit = n / 2 ^ bit % 2 == 1

-- The members that the filter reads, by their bits.
abbrev pub no_fail : ℕ
no_fail = 0

abbrev pub easy : ℕ
easy = 1

abbrev pub hidden : ℕ
hidden = 3

abbrev pub hard_rock : ℕ
hard_rock = 4

abbrev pub sudden_death : ℕ
sudden_death = 5

abbrev pub double_time : ℕ
double_time = 6

abbrev pub relax : ℕ
relax = 7

abbrev pub half_time : ℕ
half_time = 8

abbrev pub nightcore : ℕ
nightcore = 9

abbrev pub spun_out : ℕ
spun_out = 12

abbrev pub autopilot : ℕ
autopilot = 13

abbrev pub perfect : ℕ
perfect = 14

abbrev pub fade_in : ℕ
fade_in = 20

-- KEY4 to KEY8, KEY9, KEY1, KEY3 and KEY2: an IntFlag is iterated by increasing value.
abbrev pub key_mods : List ℕ
key_mods = 15 ∷ 16 ∷ 17 ∷ 18 ∷ 19 ∷ 24 ∷ 26 ∷ 27 ∷ 28 ∷ []

-- AUTOPILOT, SPUNOUT and TARGET.
abbrev pub osu_specific_mods : List ℕ
osu_specific_mods = 13 ∷ 12 ∷ 23 ∷ []

-- MIRROR, RANDOM, FADEIN and the keys.
abbrev pub mania_specific_mods : List ℕ
mania_specific_mods = 30 ∷ 21 ∷ 20 ∷ key_mods

-- `self & ~bit`, and the same of several.
abbrev pub clear : ℕ → Mods → Mods
clear bit m i = m i && not (i == bit)

abbrev pub clear_all : List ℕ → Mods → Mods
clear_all bits m i = m i && not (member i bits)

-- (DT|NC) with each other and with HT.
abbrev pub filter_speed : Mods → Mods
filter_speed m =
    if m double_time && m nightcore
    then clear double_time m
    else if (m double_time || m nightcore) && m half_time
    then clear half_time m
    else m

abbrev pub filter_easy : Mods → Mods
filter_easy m = if m easy && m hard_rock then clear hard_rock m else m

abbrev pub cannot_fail : Mods → Bool
cannot_fail m = m no_fail || m relax || m autopilot

abbrev pub filter_sudden_death : Mods → Mods
filter_sudden_death m = if cannot_fail m && m sudden_death then clear sudden_death m else m

-- The two tests of (NF|RX|AP) are one in the code: the first removal leaves its answer.
abbrev pub filter_perfect : Mods → Mods
filter_perfect m = if cannot_fail m && m perfect then clear perfect m else m

abbrev pub filter_no_fail : Mods → Mods
filter_no_fail m = if (m relax || m autopilot) && m no_fail then clear no_fail m else m

abbrev pub filter_perfect_sudden : Mods → Mods
filter_perfect_sudden m = if m perfect && m sudden_death then clear sudden_death m else m

abbrev pub filter_osu_specific : (mode_vn : ℕ) → Mods → Mods
filter_osu_specific mode_vn m = if mode_vn == 0 then m else clear_all osu_specific_mods m

abbrev pub filter_mania_specific : (mode_vn : ℕ) → Mods → Mods
filter_mania_specific mode_vn m = if mode_vn == 3 then m else clear_all mania_specific_mods m

abbrev pub filter_autopilot : (mode_vn : ℕ) → Mods → Mods
filter_autopilot mode_vn m =
    if mode_vn == 0 && m autopilot && (m spun_out || m relax) then clear autopilot m else m

abbrev pub filter_fade_in : Mods → Mods
filter_fade_in m = if m hidden && m fade_in then clear fade_in m else m

abbrev pub filter_mania : (mode_vn : ℕ) → Mods → Mods
filter_mania mode_vn m = if mode_vn == 3 then filter_fade_in (clear relax m) else m

-- How many of the bits are set, and the first of them.
unfoldable pub count : List ℕ → Mods → ℕ
count [] m = 0
count (bit ∷ bits) m = let rest = count bits m in if m bit then suc rest else rest

unfoldable pub first : List ℕ → Mods → Option ℕ
first [] m = none
first (bit ∷ bits) m = let rest = first bits m in if m bit then some bit else rest

-- `self & ~(keymods_used & ~first_keymod)`.
abbrev pub keep_key : ℕ → Mods → Mods
keep_key bit m i = m i && not (member i key_mods && not (i == bit))

-- The assertion that there is a first key cannot fail: there are two of them.
unfoldable pub filter_keys : Mods → Mods
filter_keys m =
    if ltb 1 (count key_mods m)
    then elim (first key_mods m) [ none ↦ m | some bit ↦ keep_key bit m ]
    else m

-- 1: conflicts in every mode; 2 and 3: in a mode; 4: more than one key.
unfoldable pub filter_conflicts : Mods → Mods
filter_conflicts m =
    filter_perfect_sudden
      (filter_no_fail (filter_perfect (filter_sudden_death (filter_easy (filter_speed m)))))

unfoldable pub filter_mode : (mode_vn : ℕ) → Mods → Mods
filter_mode mode_vn m =
    filter_mania mode_vn
      (filter_autopilot mode_vn (filter_mania_specific mode_vn (filter_osu_specific mode_vn m)))

unfoldable pub filter_invalid_combos : (mode_vn : ℕ) → Mods → Mods
filter_invalid_combos mode_vn m = filter_keys (filter_mode mode_vn (filter_conflicts m))
