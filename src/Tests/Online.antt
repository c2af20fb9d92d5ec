-- ===== src/Tests/Online.antt =====
-- Runs of the list of players and of the count of requests.
use bancho_prism_1_0_0_prod.Base.{
  ℕ, ◌+◌, ◌≡◌, refl, [], ◌∷◌, true, Option, none, some, ok, err, key_error,
}
use bancho_prism_1_0_0_prod.Utf8.{Text}
use bancho_prism_1_0_0_prod.Players.{Session, no_players, get, remove_player}
use bancho_prism_1_0_0_prod.Players.Index.{holder}
use bancho_prism_1_0_0_prod.Players.Refines.{
  append_call, remove_call, replay, run, is_admitted, search_list, players_refine,
  remove_player-same_user,
}
use bancho_prism_1_0_0_prod.Inflight.{
  started, increment, System, begin_request, end_request, begins, ends, stop, next, drain,
}
use bancho_prism_1_0_0_prod.Inflight.Drained.{IsCounted, gets_idle, drain-gets_idle}

abbrev strangers : ℕ → Session
strangers p = record { token = p ∷ []; id = p + 3; name = (65 + p) ∷ []; priv = 1 }

-- Lower case of "A" to "Z" where the text is one letter.
abbrev lower : Text → Text
lower [] = []
lower (c ∷ s) = (c + 32) ∷ s

strangers-admitted :
    is_admitted strangers lower
      (append_call 0 ∷ append_call 1 ∷ append_call 1 ∷ remove_call 0 ∷ append_call 2 ∷ [])
      []
    ≡ true
unfolding holder
strangers-admitted = refl

players_refine_example :
    let calls =
      append_call 0 ∷ append_call 1 ∷ append_call 1 ∷ remove_call 0 ∷ append_call 2 ∷ [] in
    let r = run strangers lower calls no_players in
    (r.0 ≡ ok tt)
    × (r.1.online ≡ replay calls [])
    × ((token : Option Text) (id : Option ℕ) (name : Option Text)
        → get strangers lower token id name r.1
          ≡ search_list strangers lower token id name (replay calls []))
players_refine_example =
    players_refine strangers lower
      (append_call 0 ∷ append_call 1 ∷ append_call 1 ∷ remove_call 0 ∷ append_call 2 ∷ [])
      strangers-admitted

-- Two clients of one user.
abbrev clients : ℕ → Session
clients p = record { token = p ∷ []; id = 7; name = 65 ∷ []; priv = 1 }

remove_player-same_user_example :
    let r = run clients lower (append_call 0 ∷ append_call 1 ∷ remove_call 0 ∷ []) no_players in
    (r.0 ≡ ok tt)
    × (r.1.online ≡ 1 ∷ [])
    × (get clients lower none (some 7) none r.1 ≡ none)
    × ((remove_player clients lower 1 r.1).0 ≡ err key_error)
remove_player-same_user_example = remove_player-same_user clients lower 0 1 refl refl refl

abbrev busy : System
busy = begin_request 5 (record { inflight = started; requests = [] })

busy-IsCounted : IsCounted busy
unfolding increment
busy-IsCounted = record { counts = refl; idle_when_empty = refl }

drain-gets_idle_example :
    drain busy (begin_request 6 busy ∷ end_request 5 (begin_request 6 busy) ∷ [])
    ≡ gets_idle (busy ∷ begin_request 6 busy ∷ end_request 5 (begin_request 6 busy) ∷ [])
drain-gets_idle_example =
    drain-gets_idle busy (begin_request 6 busy ∷ end_request 5 (begin_request 6 busy) ∷ [])
      (next busy (begin_request 6 busy) _ (begins 6 busy) (
        next (begin_request 6 busy) (end_request 5 (begin_request 6 busy)) []
          (ends 5 (begin_request 6 busy) refl) (stop _)))
      busy-IsCounted
