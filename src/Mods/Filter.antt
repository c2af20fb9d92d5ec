-- ===== src/Mods/Filter.antt =====
-- What `filter_invalid_combos` of app/constants/mods.py returns: no conflict is left.
use bancho_prism_1_0_0_prod.Base.{
  ℕ, ◌≤◌, ◌≡◌, refl, List, [], ◌∷◌, Bool, true, false, not, ◌&&◌, ◌||◌, none, arith, ltb, ◌==◌,
  if◌then◌else◌, Bool-cases, Option-cases, inl, inr, ==_iff,
}
use bancho_prism_1_0_0_prod.Packets.Framing.{member}
use bancho_prism_1_0_0_prod.Mods.{
  Mods, no_fail, easy, hidden, hard_rock, sudden_death, double_time, relax, half_time, nightcore,
  spun_out, autopilot, perfect, fade_in, key_mods, osu_specific_mods, mania_specific_mods, clear,
  clear_all, filter_speed, filter_easy, cannot_fail, filter_sudden_death, filter_perfect,
  filter_no_fail, filter_osu_specific, filter_mania_specific, filter_autopilot, filter_fade_in,
  filter_mania, count, first, keep_key, filter_keys, filter_conflicts, filter_mode,
}

-- The first combination has no bit that the second lacks.
abbrev pub IsWithin : Mods → Mods → Type 0
IsWithin a b = (i : ℕ) → a i ≡ true → b i ≡ true

module _ (m : Mods) where
  clear_if-IsWithin : (c : Bool) (bit : ℕ) → IsWithin (if c then clear bit m else m) m
  clear_if-IsWithin c bit i e = ground (arith, e)

  speed-IsWithin : IsWithin (filter_speed m) m
  speed-IsWithin i e = ground (arith, e)

  fade_in-IsWithin : IsWithin (filter_fade_in m) m
  fade_in-IsWithin i e = ground (arith, e)

  clear_all-IsWithin : (c : Bool) (bits : List ℕ) → IsWithin (if c then m else clear_all bits m) m
  clear_all-IsWithin c bits i e = ground (arith, e)

  pub keys-IsWithin : IsWithin (filter_keys m) m
  unfolding filter_keys
  keys-IsWithin i e = ground (arith, e)

-- Some of the bits is set.
abbrev pub any_of : List ℕ → Mods → Bool
any_of [] m = false
any_of (bit ∷ bits) m = m bit || any_of bits m

-- No two mods of the combination conflict, and all of them exist in the mode.
pub record IsCompatible (mode_vn : ℕ) (m : Mods) : Type 0 where
  pub speed : (m double_time && m nightcore) ≡ false
  pub half : ((m double_time || m nightcore) && m half_time) ≡ false
  pub easy_hard : (m easy && m hard_rock) ≡ false
  pub death : (cannot_fail m && (m sudden_death || m perfect)) ≡ false
  pub fail : ((m relax || m autopilot) && m no_fail) ≡ false
  pub death_twice : (m perfect && m sudden_death) ≡ false
  pub osu : (not (mode_vn == 0) && any_of osu_specific_mods m) ≡ false
  pub mania : (not (mode_vn == 3) && any_of mania_specific_mods m) ≡ false
  pub pilot : (mode_vn == 0 && m autopilot && (m spun_out || m relax)) ≡ false
  pub no_relax : (mode_vn == 3 && m relax) ≡ false
  pub fade : (mode_vn == 3 && m hidden && m fade_in) ≡ false
  pub keys : count key_mods m ≤ 1

count-single : (b : ℕ) → count key_mods (λ i. i == b) ≤ 1
unfolding count
count-single b = ground arith

count-within :
    (bits : List ℕ) (a b : Mods)
    → ((i : ℕ) → member i bits ≡ true → a i ≡ true → b i ≡ true)
    → count bits a ≤ count bits b
unfolding count
count-within [] a b h = omega arith
count-within (bit ∷ bits) a b h =
    let later = count-within bits a b (λ i k. h i (ground (arith, k))) in
    ground (arith, h bit, later, (==_iff bit bit).1 refl)

count-none : (bits : List ℕ) (m : Mods) → first bits m ≡ none → count bits m ≡ 0
unfolding count first
count-none [] m e = refl
count-none (bit ∷ bits) m e = ground (arith, count-none bits m)

count-keep_key : (b : ℕ) (m : Mods) → count key_mods (keep_key b m) ≤ 1
count-keep_key b m =
    let fewer =
      count-within key_mods (keep_key b m) (λ i. i == b) (λ i k e. ground (arith, k, e)) in
    let one = count-single b in omega arith

-- At most one of the keys is left.
pub keys-single : (m : Mods) → count key_mods (filter_keys m) ≤ 1
unfolding filter_keys
keys-single m = elim (Bool-cases (ltb 1 (count key_mods m))) [
  | inr few ↦ rw few (ground (arith, few))
  | inl many ↦ elim (Option-cases (first key_mods m)) [
    | inl nothing ↦
        let zero_keys = count-none key_mods m nothing in rw (many, nothing) (omega arith)
    | inr (b, e) ↦ rw (many, e) (count-keep_key b m)
  ]
]

module _ (m : Mods) where
  pub conflicts-IsWithin : IsWithin (filter_conflicts m) m
  unfolding filter_conflicts
  conflicts-IsWithin i e =
      let a = filter_speed m in
      let b = filter_easy a in
      let c = filter_sudden_death b in
      let d = filter_perfect c in
      speed-IsWithin m i (
        clear_if-IsWithin a (a easy && a hard_rock) hard_rock i (
          clear_if-IsWithin b _ sudden_death i (
            clear_if-IsWithin c _ perfect i (
              clear_if-IsWithin d _ no_fail i
                (clear_if-IsWithin (filter_no_fail d) _ sudden_death i e)))))

  pub conflicts-speed : (filter_conflicts m double_time && filter_conflicts m nightcore) ≡ false
  unfolding filter_conflicts
  conflicts-speed = ground arith

  pub conflicts-half :
      (m double_time && m nightcore && m half_time) ≡ false
      → let r = filter_conflicts m in ((r double_time || r nightcore) && r half_time) ≡ false
  unfolding filter_conflicts
  conflicts-half h = ground (arith, h)

  pub conflicts_keep_half_time :
      (m double_time && m nightcore && m half_time) ≡ true
      → (filter_conflicts m nightcore && filter_conflicts m half_time) ≡ true
  unfolding filter_conflicts
  conflicts_keep_half_time h = ground (arith, h)

  pub conflicts-easy : (filter_conflicts m easy && filter_conflicts m hard_rock) ≡ false
  unfolding filter_conflicts
  conflicts-easy = ground arith

  pub conflicts-death :
      let r = filter_conflicts m in
      ((cannot_fail r && (r sudden_death || r perfect)) ≡ false)
      × (((r relax || r autopilot) && r no_fail) ≡ false)
      × ((r perfect && r sudden_death) ≡ false)
  unfolding filter_conflicts
  conflicts-death = (ground arith, ground arith, ground arith)

pub any_of-within :
    (bits : List ℕ) (a b : Mods) → IsWithin a b → any_of bits b ≡ false → any_of bits a ≡ false
any_of-within [] a b h e = refl
any_of-within (bit ∷ bits) a b h e =
    let later : any_of bits b ≡ false = ground (arith, e) in
    ground (arith, e, h bit, any_of-within bits a b h later)

any_of-clear_all :
    (bits all_bits : List ℕ) (m : Mods)
    → ((i : ℕ) → member i bits ≡ true → member i all_bits ≡ true)
    → any_of bits (clear_all all_bits m) ≡ false
any_of-clear_all [] all_bits m h = refl
any_of-clear_all (bit ∷ bits) all_bits m h =
    let later = any_of-clear_all bits all_bits m (λ i k. h i (ground (arith, k))) in
    ground (arith, h bit, later, (==_iff bit bit).1 refl)

mania-IsWithin : (mode_vn : ℕ) (m : Mods) → IsWithin (filter_mania mode_vn m) m
mania-IsWithin mode_vn m i e = ground (arith, e, fade_in-IsWithin (clear relax m) i)

-- The steps that depend on the mode.
module _ (mode_vn : ℕ) (m : Mods) where
  abbrev typed : Mods
  typed = filter_mania_specific mode_vn (filter_osu_specific mode_vn m)

  mode-typed : IsWithin (filter_mode mode_vn m) typed
  unfolding filter_mode
  mode-typed i e =
      let c = filter_autopilot mode_vn typed in
      clear_if-IsWithin typed (mode_vn == 0 && typed autopilot && (typed spun_out || typed relax))
        autopilot i (mania-IsWithin mode_vn c i e)

  pub mode-IsWithin : IsWithin (filter_mode mode_vn m) m
  mode-IsWithin i e = clear_all-IsWithin m (mode_vn == 0) osu_specific_mods i (
      clear_all-IsWithin (filter_osu_specific mode_vn m) (mode_vn == 3) mania_specific_mods i
        (mode-typed i e))

  pub mode-osu : (not (mode_vn == 0) && any_of osu_specific_mods (filter_mode mode_vn m)) ≡ false
  unfolding filter_mode
  mode-osu = ground arith

  pub mode-mania :
      (not (mode_vn == 3) && any_of mania_specific_mods (filter_mode mode_vn m)) ≡ false
  mode-mania =
      let a = filter_osu_specific mode_vn m in
      let none_left = any_of-clear_all mania_specific_mods mania_specific_mods a (λ i k. k) in
      elim (Bool-cases (mode_vn == 3)) [
        | inl is_mania ↦ rw is_mania refl
        | inr other ↦
            let within : IsWithin (filter_mode mode_vn m) (clear_all mania_specific_mods a) =
              λ i e. ground (arith, other, mode-typed i e) in
            rw (other, any_of-within mania_specific_mods _ _ within none_left) refl
      ]

  pub mode-pilot :
      let r = filter_mode mode_vn m in
      (mode_vn == 0 && r autopilot && (r spun_out || r relax)) ≡ false
  unfolding filter_mode
  mode-pilot = ground arith

  pub mode-fade :
      let r = filter_mode mode_vn m in
      ((mode_vn == 3 && r relax) ≡ false) × ((mode_vn == 3 && r hidden && r fade_in) ≡ false)
  unfolding filter_mode
  mode-fade = (ground arith, ground arith)
