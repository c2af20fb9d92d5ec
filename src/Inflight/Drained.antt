-- ===== src/Inflight/Drained.antt =====
-- `drain` of app/state/inflight.py returns what it says: whether the server got idle.
use bancho_prism_1_0_0_prod.Base.{
  ℕ, ◌+◌, ◌≡◌, refl, arith, List, [], ◌∷◌, Bool, true, false, ◌||◌, ◌==◌, length,
}
use bancho_prism_1_0_0_prod.Match.Complete.{contains}
use bancho_prism_1_0_0_prod.Match.Membership.{remove}
use bancho_prism_1_0_0_prod.Spectators.{is_empty}
use bancho_prism_1_0_0_prod.Inflight.{
  started, increment, decrement, System, Step, begins, ends, Run, stop, next, wait_idle, drain,
}

-- The counter counts the open requests, and the event is set while there is none.
pub record IsCounted (s : System) : Type 0 where
  pub counts : s.inflight.count ≡ length s.requests
  pub idle_when_empty : s.inflight.idle ≡ is_empty s.requests

pub started-IsCounted : IsCounted (record { inflight = started; requests = [] })
started-IsCounted = record { counts = refl; idle_when_empty = refl }

length-remove :
    (r : ℕ) (ids : List ℕ) → contains r ids ≡ true → length (remove r ids) + 1 ≡ length ids
length-remove r [] h = cc
length-remove r (q ∷ ids) h = ground (arith, h, length-remove r ids)

is_empty-length : (ids : List ℕ) → is_empty ids ≡ (length ids == 0)
is_empty-length [] = refl
is_empty-length (q ∷ ids) = ground arith

Step-IsCounted : (s t : System) → Step s t → IsCounted s → IsCounted t
unfolding increment decrement
Step-IsCounted s t (begins r _) v = record {
  counts = omega (arith, v.counts);
  idle_when_empty = refl;
}
Step-IsCounted s t (ends r _ h) v = record {
  counts = ground (arith, v.counts, length-remove r s.requests h);
  idle_when_empty = ground (
    arith,
    v.counts,
    v.idle_when_empty,
    length-remove r s.requests h,
    is_empty-length (remove r s.requests),
    is_empty-length s.requests,
  );
}

-- Some system of a run has no open request.
abbrev pub gets_idle : List System → Bool
gets_idle [] = false
gets_idle (s ∷ later) = is_empty s.requests || gets_idle later

wait_idle-gets_idle :
    (s : System) (later : List System)
    → Run s later
    → IsCounted s
    → wait_idle later ≡ gets_idle later
wait_idle-gets_idle s [] (stop _) v = refl
wait_idle-gets_idle s (t ∷ later) (next _ _ _ step more) v =
    let w = Step-IsCounted s t step v in
    rw (w.idle_when_empty, wait_idle-gets_idle t later more w) refl

-- From a counted system, whatever requests start and end before the deadline, in any order: `drain`
-- returns True exactly if no request is open when it is called or after one of those steps.
pub drain-gets_idle :
    (s : System) (later : List System)
    → Run s later
    → IsCounted s
    → drain s later ≡ gets_idle (s ∷ later)
unfolding drain
drain-gets_idle s later run v =
    ground (arith, v.counts, is_empty-length s.requests, wait_idle-gets_idle s later run v)
