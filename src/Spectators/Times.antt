-- ===== src/Spectators/Times.antt =====
-- How often a player is in a list of players, under the writes of app/objects/player.py.
use bancho_prism_1_0_0_prod.Base.{
  ℕ, ◌+◌, ◌<◌, ◌≡◌, refl, List, [], ◌∷◌, ◌++◌, true, false, arith, ◌==◌, if◌then◌else◌,
}
use bancho_prism_1_0_0_prod.Match.Complete.{contains}
use bancho_prism_1_0_0_prod.Match.Membership.{remove}
use bancho_prism_1_0_0_prod.Spectators.{is_empty}

unfoldable pub times : ℕ → List ℕ → ℕ
times p [] = 0
times p (q ∷ ids) = (if q == p then 1 else 0) + times p ids

pub times-append :
    (p q : ℕ) (ids : List ℕ) → times p (ids ++ q ∷ []) ≡ times p ids + (if q == p then 1 else 0)
unfolding times
times-append p q [] = omega arith
times-append p q (x ∷ ids) = omega (arith, times-append p q ids)

pub contains-times : (p : ℕ) (ids : List ℕ) → contains p ids ≡ true → 0 < times p ids
unfolding times
contains-times p [] h = cc
contains-times p (q ∷ ids) h = ground (arith, h, contains-times p ids)

pub times_absent : (p : ℕ) (ids : List ℕ) → contains p ids ≡ false → times p ids ≡ 0
unfolding times
times_absent p [] h = refl
times_absent p (q ∷ ids) h = ground (arith, h, times_absent p ids)

pub times-remove :
    (p q : ℕ) (ids : List ℕ)
    → contains q ids ≡ true
    → times p (remove q ids) + (if q == p then 1 else 0) ≡ times p ids
unfolding times
times-remove p q [] h = cc
times-remove p q (x ∷ ids) h = ground (arith, h, times-remove p q ids)

pub times-is_empty : (p : ℕ) (ids : List ℕ) → is_empty ids ≡ true → times p ids ≡ 0
unfolding times
times-is_empty p [] h = refl
times-is_empty p (q ∷ ids) h = cc
