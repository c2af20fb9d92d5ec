-- ===== src/Match/Locks.antt =====
-- What the lock handler does when it is aimed twice at the slot of a player.
use bancho_prism_1_0_0_prod.Base.{
  ℕ, zero, suc, ◌<◌, ◌≡◌, ◌∙◌, ap, List, [], ◌∷◌, Bool, true, false, some, arith, get_elem?,
}
use bancho_prism_1_0_0_prod.Base.Int.{pos}
use bancho_prism_1_0_0_prod.Match.{
  Match, Slot, opened, locked, is_status, holds, modify, enqueue_state,
}
use bancho_prism_1_0_0_prod.Match.Handlers.{done, match_lock, set_status, modify_slot, toggle_lock}

get_elem?-modify :
    (i : ℕ) (f : Slot → Slot) (slots : List Slot) (s : Slot)
    → get_elem? slots i ≡ some s
    → get_elem? (modify i f slots) i ≡ some (f s)
get_elem?-modify i f [] s e = cc
get_elem?-modify zero f (t ∷ slots) s e = let same : t ≡ s = cc in ap (λ x. some (f x)) same
get_elem?-modify (suc i) f (t ∷ slots) s e = get_elem?-modify i f slots s e

module _ (online : ℕ → Bool) (m : Match) (j : ℕ) (s : Slot) where
  -- One request of the host toggles the slot, unless the host sits there unlocked.
  match_lock_toggles :
      online m.host_id ≡ true
      → j < 16
      → get_elem? m.slots j ≡ some s
      → holds m.host_id s ≡ false
      → match_lock online m.host_id (pos j) m
        ≡ done (enqueue_state true (modify_slot j toggle_lock m))
  unfolding match_lock
  match_lock_toggles h k e other = ground (arith, h, e, other)

toggle_lock-holds : (p : ℕ) (s : Slot) → holds p s ≡ false → holds p (toggle_lock s) ≡ false
toggle_lock-holds p s h = ground (arith, h)

toggle_lock_twice :
    (s : Slot)
    → is_status s.status locked ≡ false
    → toggle_lock (toggle_lock s) ≡ set_status opened s
toggle_lock_twice s h = ground (arith, h)

-- If the host, online, locks the slot of another player twice, the second request opens the slot
-- with its player still in it.
pub match_lock_twice :
    (online : ℕ → Bool) (m : Match) (j : ℕ) (s : Slot)
    → online m.host_id ≡ true
    → j < 16
    → get_elem? m.slots j ≡ some s
    → holds m.host_id s ≡ false
    → is_status s.status locked ≡ false
    → let once = (match_lock online m.host_id (pos j) m).1 in
      get_elem? (match_lock online m.host_id (pos j) once).1.slots j ≡ some (set_status opened s)
match_lock_twice online m j s h k e other not_locked =
    let once = enqueue_state true (modify_slot j toggle_lock m) in
    let at_once = get_elem?-modify j toggle_lock m.slots s e in
    rw
      (
        match_lock_toggles online m j s h k e other,
        match_lock_toggles online once j (toggle_lock s) h k at_once
            (toggle_lock-holds m.host_id s other),
      )
      (get_elem?-modify j toggle_lock once.slots (toggle_lock s) at_once
        ∙ ap some (toggle_lock_twice s not_locked))
