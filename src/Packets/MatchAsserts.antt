-- ===== src/Packets/MatchAsserts.antt =====
-- The assertion in `write_match` of app/packets.py, that a slot whose status has a player has one.
use bancho_prism_1_0_0_prod.Base.{◌≢◌, Bool, true, false, Result, err, assertion_error}
use bancho_prism_1_0_0_prod.Utf8.{Bytes}
use bancho_prism_1_0_0_prod.Match.{
  Match, SlotStatus, opened, locked, not_ready, ready, no_map, playing, complete, quit,
}

-- Whatever else it does, it does not fail the assertion.
abbrev Keeps : Result Bytes → Type 0
Keeps r = r ≢ err assertion_error

-- The parts of a conjunction, one after another.
infixr 5 ◌and◌
abbrev ◌and◌ : {A B : Type 0} → A → B → A × B
h and k = (h, k)

-- The statuses of a slot that somebody sits in, one by one.
abbrev pub seats_player : SlotStatus → Bool
seats_player opened = false
seats_player locked = false
seats_player not_ready = true
seats_player ready = true
seats_player no_map = true
seats_player playing = true
seats_player complete = true
seats_player quit = false
