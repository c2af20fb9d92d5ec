-- ===== src/Players/Index.antt =====
-- One index of app/objects/collections.py beside the list of players: what it answers is the search
-- of the list for a session with the key, while no two sessions of the list share a key.
use bancho_prism_1_0_0_prod.Base.{
  ℕ, List, [], ◌∷◌, ◌++◌, Bool, true, Option, none, some, if◌then◌else◌, ◌≡◌, refl, ◌↔◌, arith,
  ==_iff,
}
use bancho_prism_1_0_0_prod.Match.Complete.{contains}
use bancho_prism_1_0_0_prod.Match.Membership.{remove, same_text}
use bancho_prism_1_0_0_prod.Utf8.{Text}
use bancho_prism_1_0_0_prod.Players.{Index, put, without}

pub same_text_iff : (a b : Text) → (same_text a b ≡ true) ↔ (a ≡ b)
same_text_iff [] [] = ground arith
same_text_iff [] (d ∷ b) = ground arith
same_text_iff (c ∷ a) [] = ground arith
same_text_iff (c ∷ a) (d ∷ b) = ground (arith, same_text_iff a b)

module _ {K : Type 0} (same : K → K → Bool) (key : ℕ → K) where
  -- The first player of the list with the key.
  unfoldable pub holder : K → List ℕ → Option ℕ
  holder k [] = none
  holder k (p ∷ ids) = if same (key p) k then some p else holder k ids

  -- The index answers what the search of the list does.
  abbrev pub Agrees : List ℕ → Index K → Type 0
  Agrees ids index = (k : K) → index k ≡ holder k ids

  -- No two players of the list have one key.
  unfoldable pub Distinct : List ℕ → Type 0
  Distinct [] = Unit
  Distinct (p ∷ ids) = (holder (key p) ids ≡ none) × Distinct ids

module _ {K : Type 0} (same : K → K → Bool) (same_iff : (a b : K) → (same a b ≡ true) ↔ (a ≡ b))
    (key : ℕ → K) where
  same_self : (k : K) → same k k ≡ true
  same_self k = (same_iff k k).1 refl

  holder-append :
      (k : K) (p : ℕ) (ids : List ℕ)
      → holder same key k (ids ++ p ∷ []) ≡ elim (holder same key k ids) [
        | some q ↦ some q
        | none ↦ if same (key p) k then some p else none
      ]
  unfolding holder
  holder-append k p [] = refl
  holder-append k p (q ∷ ids) = ground (arith, holder-append k p ids)

  pub Agrees-put :
      (p : ℕ) (ids : List ℕ) (index : Index K)
      → Agrees same key ids index
      → holder same key (key p) ids ≡ none
      → Agrees same key (ids ++ p ∷ []) (put same (key p) p index)
  Agrees-put p ids index agrees free k =
      ground (arith, same_iff (key p) k, holder-append k p ids, agrees k, free)

  pub Distinct-append :
      (p : ℕ) (ids : List ℕ)
      → Distinct same key ids
      → holder same key (key p) ids ≡ none
      → Distinct same key (ids ++ p ∷ [])
  unfolding Distinct holder
  Distinct-append p [] distinct free = (refl, tt)
  Distinct-append p (q ∷ ids) distinct free = ground (
    arith,
    same_iff (key q) (key p),
    same_iff (key p) (key q),
    holder-append (key q) p ids,
    Distinct-append p ids distinct.1,
  )

  pub holder-contains :
      (p : ℕ) (ids : List ℕ)
      → Distinct same key ids
      → contains p ids ≡ true
      → holder same key (key p) ids ≡ some p
  unfolding Distinct holder
  holder-contains p [] distinct h = cc
  holder-contains p (q ∷ ids) distinct h =
      ground (arith, ==_iff q p, same_iff (key q) (key p), holder-contains p ids distinct.1)

  holder-remove :
      (p : ℕ) (k : K) (ids : List ℕ)
      → Distinct same key ids
      → contains p ids ≡ true
      → holder same key k (remove p ids) ≡ (if same (key p) k then none else holder same key k ids)
  unfolding Distinct holder
  holder-remove p k [] distinct h = cc
  holder-remove p k (q ∷ ids) distinct h = ground (
    arith,
    ==_iff q p,
    same_iff (key q) k,
    same_iff (key p) k,
    same_iff (key q) (key p),
    holder-contains p ids distinct.1,
    holder-remove p k ids distinct.1,
  )

  holder-remove-none :
      (p : ℕ) (k : K) (ids : List ℕ)
      → holder same key k ids ≡ none
      → holder same key k (remove p ids) ≡ none
  unfolding holder
  holder-remove-none p k [] h = refl
  holder-remove-none p k (q ∷ ids) h = ground (arith, h, holder-remove-none p k ids)

  pub Distinct-remove :
      (p : ℕ) (ids : List ℕ) → Distinct same key ids → Distinct same key (remove p ids)
  unfolding Distinct
  Distinct-remove p [] distinct = tt
  Distinct-remove p (q ∷ ids) distinct =
      ground (arith, holder-remove-none p (key q) ids, Distinct-remove p ids distinct.1)

  pub Agrees-without :
      (p : ℕ) (ids : List ℕ) (index : Index K)
      → Distinct same key ids
      → contains p ids ≡ true
      → Agrees same key ids index
      → Agrees same key (remove p ids) (without same (key p) index)
  Agrees-without p ids index distinct h agrees k =
      ground (arith, holder-remove p k ids distinct h, agrees k)
