-- ===== src/Match/Writes.antt =====
-- What the writes through slot objects do to who sits where, and to what holds of every slot.
use bancho_prism_1_0_0_prod.Base.{
  ℕ, zero, suc, ◌+◌, ◌≡◌, ◌∙◌, refl, ap, List, [], ◌∷◌, map, Bool, true, Option, some, arith,
  get_elem?, set, length, Bool-cases, inl, inr,
}
use bancho_prism_1_0_0_prod.Match.{Slot, modify, find_from, holds, get_slot_id}
use bancho_prism_1_0_0_prod.Match.Seats.{All}

abbrev pub players : List Slot → List (Option ℕ)
players [] = []
players (s ∷ slots) = s.player ∷ players slots

pub length-modify :
    (i : ℕ) (f : Slot → Slot) (slots : List Slot) → length (modify i f slots) ≡ length slots
length-modify i f [] = refl
length-modify zero f (s ∷ slots) = refl
length-modify (suc i) f (s ∷ slots) = ap suc (length-modify i f slots)

pub players-modify :
    (i : ℕ) (f : Slot → Slot) (slots : List Slot)
    → ((s : Slot) → (f s).player ≡ s.player)
    → players (modify i f slots) ≡ players slots
players-modify i f [] h = refl
players-modify zero f (s ∷ slots) h = ap (λ p. p ∷ players slots) (h s)
players-modify (suc i) f (s ∷ slots) h = ap (λ l. s.player ∷ l) (players-modify i f slots h)

pub players-modify-set :
    (i : ℕ) (f : Slot → Slot) (slots : List Slot) (p : Option ℕ)
    → ((s : Slot) → (f s).player ≡ p)
    → players (modify i f slots) ≡ set (players slots) i p
players-modify-set i f [] p h = refl
players-modify-set zero f (s ∷ slots) p h = ap (λ q. q ∷ players slots) (h s)
players-modify-set (suc i) f (s ∷ slots) p h =
    ap (λ l. s.player ∷ l) (players-modify-set i f slots p h)

pub players-map :
    (f : Slot → Slot) (slots : List Slot)
    → ((s : Slot) → (f s).player ≡ s.player)
    → players (map f slots) ≡ players slots
players-map f [] h = refl
players-map f (s ∷ slots) h =
    ap (λ l. (f s).player ∷ l) (players-map f slots h) ∙ ap (λ p. p ∷ players slots) (h s)

pub length-map {ℓ κ} :
    {A : Type ℓ} {B : Type κ} (f : A → B) (xs : List A) → length (map f xs) ≡ length xs
length-map f [] = refl
length-map f (x ∷ xs) = ap suc (length-map f xs)

module _ {κ} (P : Slot → Type κ) where
  -- The write has to keep `P` at the slot where it happens only.
  pub All-modify :
      (i : ℕ) (f : Slot → Slot) (slots : List Slot)
      → ((s : Slot) → get_elem? slots i ≡ some s → P s → P (f s))
      → All P slots
      → All P (modify i f slots)
  All-modify i f [] keep h = tt
  All-modify zero f (s ∷ slots) keep h = (keep s refl h.0, h.1)
  All-modify (suc i) f (s ∷ slots) keep h = (h.0, All-modify i f slots keep h.1)

  pub All-map :
      (f : Slot → Slot) (slots : List Slot)
      → ((s : Slot) → P s → P (f s))
      → All P slots
      → All P (map f slots)
  All-map f [] keep h = tt
  All-map f (s ∷ slots) keep h = (keep s h.0, All-map f slots keep h.1)

  pub All-at :
      (i : ℕ) (slots : List Slot) (s : Slot) → get_elem? slots i ≡ some s → All P slots → P s
  All-at i [] s e h = cc
  All-at zero (t ∷ slots) s e h = let same : t ≡ s = cc in rw (← same) h.0
  All-at (suc i) (t ∷ slots) s e h = All-at i slots s e h.1

pub players-at :
    (i : ℕ) (slots : List Slot) (s : Slot)
    → get_elem? slots i ≡ some s
    → get_elem? (players slots) i ≡ some s.player
players-at i [] s e = cc
players-at zero (t ∷ slots) s e = let same : t ≡ s = cc in ap (λ (x : Slot). some x.player) same
players-at (suc i) (t ∷ slots) s e = players-at i slots s e

-- What a search finds passes its test. The index counts from `idx`.
pub find_from-passes :
    (test : Slot → Bool) (idx i : ℕ) (slots : List Slot)
    → find_from test idx slots ≡ some i
    → (k : ℕ) × (s : Slot) × (i ≡ idx + k) × (get_elem? slots k ≡ some s) × (test s ≡ true)
find_from-passes test idx i [] e = cc
find_from-passes test idx i (s ∷ slots) e = elim (Bool-cases (test s)) [
  | inl yes_here ↦ (0, s, ground (arith, yes_here), refl, yes_here)
  | inr no_here ↦
      let (k, t, p, q, r) = find_from-passes test (suc idx) i slots (ground (arith, no_here)) in
      (suc k, t, omega arith, q, r)
]

holds-player : (p : ℕ) (s : Slot) → holds p s ≡ true → s.player ≡ some p
holds-player p s h = ground arith

-- The slot that `get_slot` returns is the player's.
pub get_slot_id-holds :
    (p i : ℕ) (slots : List Slot)
    → get_slot_id p slots ≡ some i
    → (s : Slot) × (get_elem? slots i ≡ some s) × (s.player ≡ some p)
unfolding get_slot_id
get_slot_id-holds p i slots e =
    let (k, s, at, q, r) = find_from-passes (holds p) 0 i slots e in
    (s, rw (← q) (ap (get_elem? slots) (omega arith)), holds-player p s r)

pub get_slot_id-seat :
    (p i : ℕ) (slots : List Slot)
    → get_slot_id p slots ≡ some i
    → get_elem? (players slots) i ≡ some (some p)
get_slot_id-seat p i slots e =
    let (s, q, r) = get_slot_id-holds p i slots e in players-at i slots s q ∙ ap some r
