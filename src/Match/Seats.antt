-- ===== src/Match/Seats.antt =====
-- Who sits where: lists of optional ids with nobody in two places, under the writes that the
-- handlers make. The lemmas about `modify` and about the searches through the slots stand here too.
use bancho_prism_1_0_0_prod.Base.{
  ℕ, zero, suc, ◌≡◌, ◌≢◌, refl, sym, ap, List, [], ◌∷◌, Option, none, some, arith, ◌==◌, get_elem?,
  set, Bool-cases, inl, inr, ==_iff,
}

abbrev pub All {ℓ κ} : {A : Type ℓ} → (A → Type κ) → List A → Type κ
All P [] = Unit
All P (x ∷ xs) = P x × All P xs

-- `p` is in none of the seats.
abbrev pub Absent : ℕ → List (Option ℕ) → Type 0
Absent p [] = Unit
Absent p (none ∷ seats) = Absent p seats
Absent p (some q ∷ seats) = (q ≢ p) × Absent p seats

-- Nobody is in two seats.
abbrev pub Distinct : List (Option ℕ) → Type 0
Distinct [] = Unit
Distinct (none ∷ seats) = Distinct seats
Distinct (some p ∷ seats) = Absent p seats × Distinct seats

pub Absent-set-none :
    (q i : ℕ) (seats : List (Option ℕ)) → Absent q seats → Absent q (set seats i none)
Absent-set-none q i [] h = tt
Absent-set-none q zero (none ∷ seats) h = h
Absent-set-none q zero (some p ∷ seats) h = h.1
Absent-set-none q (suc i) (none ∷ seats) h = Absent-set-none q i seats h
Absent-set-none q (suc i) (some p ∷ seats) h = (h.0, Absent-set-none q i seats h.1)

pub Distinct-set-none :
    (i : ℕ) (seats : List (Option ℕ)) → Distinct seats → Distinct (set seats i none)
Distinct-set-none i [] h = tt
Distinct-set-none zero (none ∷ seats) h = h
Distinct-set-none zero (some p ∷ seats) h = h.1
Distinct-set-none (suc i) (none ∷ seats) h = Distinct-set-none i seats h
Distinct-set-none (suc i) (some p ∷ seats) h =
    (Absent-set-none p i seats h.0, Distinct-set-none i seats h.1)

pub Absent-set-some :
    (q p j : ℕ) (seats : List (Option ℕ)) → p ≢ q → Absent q seats → Absent q (set seats j (some p))
Absent-set-some q p j [] ne h = tt
Absent-set-some q p zero (none ∷ seats) ne h = (ne, h)
Absent-set-some q p zero (some r ∷ seats) ne h = (ne, h.1)
Absent-set-some q p (suc j) (none ∷ seats) ne h = Absent-set-some q p j seats ne h
Absent-set-some q p (suc j) (some r ∷ seats) ne h = (h.0, Absent-set-some q p j seats ne h.1)

pub Distinct-set-some :
    (p j : ℕ) (seats : List (Option ℕ))
    → Absent p seats
    → Distinct seats
    → Distinct (set seats j (some p))
Distinct-set-some p j [] a h = tt
Distinct-set-some p zero (none ∷ seats) a h = (a, h)
Distinct-set-some p zero (some r ∷ seats) a h = (a.1, h.1)
Distinct-set-some p (suc j) (none ∷ seats) a h = Distinct-set-some p j seats a h
Distinct-set-some p (suc j) (some r ∷ seats) a h =
    (Absent-set-some r p j seats (λ e. a.0 (sym e)) h.0, Distinct-set-some p j seats a.1 h.1)

Absent-elsewhere :
    (p r i : ℕ) (seats : List (Option ℕ))
    → Absent r seats
    → get_elem? seats i ≡ some (some p)
    → r ≢ p
Absent-elsewhere p r i [] a e = λ _. cc
Absent-elsewhere p r zero (none ∷ seats) a e = λ _. cc
Absent-elsewhere p r zero (some q ∷ seats) a e = ground (arith, a.0)
Absent-elsewhere p r (suc i) (none ∷ seats) a e = Absent-elsewhere p r i seats a e
Absent-elsewhere p r (suc i) (some q ∷ seats) a e = Absent-elsewhere p r i seats a.1 e

-- Who is taken out of the one seat is in none.
pub Absent-set-none_self :
    (p i : ℕ) (seats : List (Option ℕ))
    → Distinct seats
    → get_elem? seats i ≡ some (some p)
    → Absent p (set seats i none)
Absent-set-none_self p i [] h e = tt
Absent-set-none_self p zero (none ∷ seats) h e = cc
Absent-set-none_self p zero (some q ∷ seats) h e = let same : q ≡ p = cc in rw (← same) h.0
Absent-set-none_self p (suc i) (none ∷ seats) h e = Absent-set-none_self p i seats h e
Absent-set-none_self p (suc i) (some q ∷ seats) h e =
    (Absent-elsewhere p q i seats h.0 e, Absent-set-none_self p i seats h.1 e)

pub set-set {ℓ} : {A : Type ℓ} (i : ℕ) (x y : A) (xs : List A) → set (set xs i x) i y ≡ set xs i y
set-set i x y [] = refl
set-set zero x y (a ∷ xs) = refl
set-set (suc i) x y (a ∷ xs) = ap (λ l. a ∷ l) (set-set i x y xs)

pub set-set_comm {ℓ} :
    {A : Type ℓ} (i j : ℕ) (x y : A) (xs : List A)
    → i ≢ j
    → set (set xs j x) i y ≡ set (set xs i y) j x
set-set_comm i j x y [] h = refl
set-set_comm zero zero x y (a ∷ xs) h = absurd (h refl)
set-set_comm zero (suc j) x y (a ∷ xs) h = refl
set-set_comm (suc i) zero x y (a ∷ xs) h = refl
set-set_comm (suc i) (suc j) x y (a ∷ xs) h =
    ap (λ l. a ∷ l) (set-set_comm i j x y xs (λ e. h (ap suc e)))

-- The move of a player from seat `i` to seat `j`, as the handler makes it.
pub Distinct-move :
    (p i j : ℕ) (seats : List (Option ℕ))
    → Distinct seats
    → get_elem? seats i ≡ some (some p)
    → Distinct (set (set seats j (some p)) i none)
Distinct-move p i j seats h e = elim (Bool-cases (i == j)) [
  | inl same ↦ rw (← (==_iff i j).0 same) (rw set-set (Distinct-set-none i seats h))
  | inr other ↦ rw (set-set_comm i j (some p) none seats (ground arith)) (
      Distinct-set-some p j (set seats i none) (Absent-set-none_self p i seats h e)
        (Distinct-set-none i seats h))
]
