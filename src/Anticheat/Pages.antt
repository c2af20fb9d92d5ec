-- ===== src/Anticheat/Pages.antt =====
-- The pages of `backfill_once` in app/services/anticheat/worker.py: after a page of scores in the
-- order of their ids, what is fetched from its last id on is what the page left.
use bancho_prism_1_0_0_prod.Base.{
  ℕ, zero, suc, ◌+◌, ◌≤◌, ◌<◌, ◌≡◌, refl, sym, ◌∙◌, ap, arith, List, [], ◌∷◌, ◌++◌, ◌&&◌, ltb,
  if◌then◌else◌, length, take, drop, Bool-cases, inl, inr,
}
use bancho_prism_1_0_0_prod.Base.Int.{pos}
use bancho_prism_1_0_0_prod.Match.{is_none}
use bancho_prism_1_0_0_prod.Anticheat.Analysis.{Row, Table}
use bancho_prism_1_0_0_prod.Anticheat.Worker.{PendingScore, unanalyzed, last_id}

module _ {ℓ} {A : Type ℓ} where
  pub take_nil : (n : ℕ) → take {A = A} n [] ≡ []
  take_nil zero = refl
  take_nil (suc n) = refl

  pub take_add : (m n : ℕ) (xs : List A) → take (m + n) xs ≡ take m xs ++ take n (drop m xs)
  take_add zero n xs = ap (λ k. take k xs) (omega arith)
  take_add (suc m) n [] = take_nil (suc m + n) ∙ sym (take_nil n)
  take_add (suc m) n (x ∷ xs) =
      let shifted : suc m + n ≡ suc (m + n) = omega arith in
      rw shifted (ap (λ l. x ∷ l) (take_add m n xs))

  pub take_all : (n : ℕ) (xs : List A) → length xs ≤ n → take n xs ≡ xs
  take_all zero [] h = refl
  take_all zero (x ∷ xs) h = absurd (omega arith)
  take_all (suc n) [] h = refl
  take_all (suc n) (x ∷ xs) h = ap (λ l. x ∷ l) (take_all n xs (omega arith))

-- The ids rise, from above a bound.
unfoldable pub IsAscending : ℕ → List PendingScore → Type 0
IsAscending b [] = Unit
IsAscending b (p ∷ scores) = (b < p.score_id) × IsAscending p.score_id scores

above : ℕ → List PendingScore → List PendingScore
above c [] = []
above c (p ∷ scores) = if ltb c p.score_id then p ∷ above c scores else above c scores

weaken :
    (b c : ℕ) (scores : List PendingScore) → b ≤ c → IsAscending c scores → IsAscending b scores
unfolding IsAscending
weaken b c [] h k = tt
weaken b c (p ∷ scores) h k = (omega arith, k.1)

above_all : (c : ℕ) (scores : List PendingScore) → IsAscending c scores → above c scores ≡ scores
unfolding IsAscending above
above_all c [] h = refl
above_all c (p ∷ scores) h =
    ground (arith, above_all c scores (weaken c p.score_id scores (omega arith) h.1))

last_id_bound :
    (b n : ℕ) (scores : List PendingScore) → IsAscending b scores → b ≤ last_id b (take n scores)
unfolding IsAscending
last_id_bound b zero scores h = omega arith
last_id_bound b (suc n) [] h = omega arith
last_id_bound b (suc n) (p ∷ scores) h = omega (arith, last_id_bound p.score_id n scores h.1)

above-take :
    (b n : ℕ) (scores : List PendingScore)
    → IsAscending b scores
    → above (last_id b (take n scores)) scores ≡ drop n scores
unfolding above IsAscending
above-take b zero scores h = above_all b scores h
above-take b (suc n) [] h = refl
above-take b (suc n) (p ∷ scores) h =
    ground (arith, last_id_bound p.score_id n scores h.1, above-take p.score_id n scores h.1)

module _ {F : Type 0} (rows : Table (Row F)) where
  unanalyzed-IsAscending_from :
      (b c : ℕ) (scores : List PendingScore)
      → IsAscending b scores
      → IsAscending b (unanalyzed rows c scores)
  unfolding IsAscending
  unanalyzed-IsAscending_from b c [] h = tt
  unanalyzed-IsAscending_from b c (p ∷ scores) h =
      elim (Bool-cases (ltb c p.score_id && is_none (rows (pos p.score_id)))) [
        | inl kept ↦ rw kept (h.0, unanalyzed-IsAscending_from p.score_id c scores h.1)
        | inr left ↦ rw left (
            weaken b p.score_id (unanalyzed rows c scores) (omega arith)
              (unanalyzed-IsAscending_from p.score_id c scores h.1))
      ]

  unanalyzed-IsAscending :
      (b c : ℕ) (scores : List PendingScore)
      → IsAscending b scores
      → IsAscending c (unanalyzed rows c scores)
  unfolding IsAscending
  unanalyzed-IsAscending b c [] h = tt
  unanalyzed-IsAscending b c (p ∷ scores) h =
      elim (Bool-cases (ltb c p.score_id && is_none (rows (pos p.score_id)))) [
        | inl kept ↦
            rw kept (ground (arith, kept), unanalyzed-IsAscending_from p.score_id c scores h.1)
        | inr left ↦ rw left (unanalyzed-IsAscending p.score_id c scores h.1)
      ]

  unanalyzed-above :
      (c d : ℕ) (scores : List PendingScore)
      → c ≤ d
      → unanalyzed rows d scores ≡ above d (unanalyzed rows c scores)
  unfolding above
  unanalyzed-above c d [] h = refl
  unanalyzed-above c d (p ∷ scores) h = ground (arith, unanalyzed-above c d scores h)

  pub unanalyzed_next :
      (b c n : ℕ) (scores : List PendingScore)
      → IsAscending b scores
      → unanalyzed rows (last_id c (take n (unanalyzed rows c scores))) scores
        ≡ drop n (unanalyzed rows c scores)
  unanalyzed_next b c n scores h =
      let rising = unanalyzed-IsAscending b c scores h in
      unanalyzed-above c _ scores (last_id_bound c n (unanalyzed rows c scores) rising)
      ∙ above-take c n (unanalyzed rows c scores) rising
