-- ===== src/Inflight.antt =====
-- app/state/inflight.py: the count of the HTTP requests that are executing, and the event that shutdown
-- waits for. A `System` is the counter with the requests themselves, which the middleware brackets
-- with `increment` and `decrement`; a request is a number.
pub mod Drained
use bancho_prism_1_0_0_prod.Base.{
  ℕ, zero, suc, ◌+◌, ◌-◌, ◌≡◌, List, [], ◌∷◌, Bool, true, false, ◌||◌, ◌==◌, if◌then◌else◌,
}
use bancho_prism_1_0_0_prod.Match.Complete.{contains}
use bancho_prism_1_0_0_prod.Match.Membership.{remove}

-- `_count` and whether `_idle` is set
pub record Inflight : Type 0 where
  pub count : ℕ
  pub idle : Bool

abbrev pub started : Inflight
started = record { count = 0; idle = true }

unfoldable pub increment : Inflight → Inflight
increment i = record { count = i.count + 1; idle = false }

-- What would be below 0 is 0 here, as after the clamp.
unfoldable pub decrement : Inflight → Inflight
decrement i =
    let count = i.count - 1 in
    if count == 0 then record { count = 0; idle = true } else record i { count = count }

pub record System : Type 0 where
  pub inflight : Inflight
  pub requests : List ℕ

abbrev pub begin_request : ℕ → System → System
begin_request r s = record { inflight = increment s.inflight; requests = r ∷ s.requests }

abbrev pub end_request : ℕ → System → System
end_request r s = record { inflight = decrement s.inflight; requests = remove r s.requests }

-- A request starts, or one that is executing ends.
pub data Step : System → System → Type 0 where
  begins : (r : ℕ) (s : System) → Step s (begin_request r s)
  ends : (r : ℕ) (s : System) → contains r s.requests ≡ true → Step s (end_request r s)

-- The systems in the order in which they come up, from the first.
pub data Run : System → List System → Type 0 where
  stop : (s : System) → Run s []
  next : (s t : System) (later : List System) → Step s t → Run t later → Run s (t ∷ later)

-- `_idle.wait()` until the deadline: the event is seen set after one of the steps.
abbrev pub wait_idle : List System → Bool
wait_idle [] = false
wait_idle (s ∷ later) = s.inflight.idle || wait_idle later

-- `drain`, with the steps up to its deadline.
unfoldable pub drain : System → List System → Bool
drain s later = if s.inflight.count == 0 then true else wait_idle later
