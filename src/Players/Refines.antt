-- ===== src/Players/Refines.antt =====
-- Any sequence of `append` and `remove` of Players in app/objects/collections.py, on the list alone
-- and on the list with its indices.
use bancho_prism_1_0_0_prod.Base.{
  ℕ, List, [], ◌∷◌, ◌++◌, Bool, true, false, ◌&&◌, ◌||◌, Option, none, some, if◌then◌else◌, ◌≡◌,
  refl, ◌∙◌, ap, arith, Bool-cases, both, inl, inr, ◌==◌, ==_iff, Result, ok, err, key_error,
}
use bancho_prism_1_0_0_prod.Utf8.{Text}
use bancho_prism_1_0_0_prod.Match.Complete.{contains}
use bancho_prism_1_0_0_prod.Match.Membership.{remove, same_text}
use bancho_prism_1_0_0_prod.Players.{
  Session, Players, no_players, token_of, id_of, safe_name_of, make_safe_name, get, append,
  remove_player,
}
use bancho_prism_1_0_0_prod.Players.Index.{holder, same_text_iff}
use bancho_prism_1_0_0_prod.Players.Kept.{
  IsIndexed, is_new, no_players-IsIndexed, append-IsIndexed, remove_player-IsIndexed,
}

pub data Call : Type 0 where
  append_call remove_call : (player : ℕ) → Call

-- The list of players without its indices.
abbrev pub add_once : ℕ → List ℕ → List ℕ
add_once p ids = if contains p ids then ids else ids ++ p ∷ []

abbrev pub replay : List Call → List ℕ → List ℕ
replay [] ids = ids
replay (append_call p ∷ calls) ids = replay calls (add_once p ids)
replay (remove_call p ∷ calls) ids = replay calls (remove p ids)

module _ (sessions : ℕ → Session) (lower : Text → Text) where
  abbrev pub call : Call → Players → Result (Unit {0}) × Players
  call (append_call p) s = (ok tt, append sessions lower p s)
  call (remove_call p) s = remove_player sessions lower p s

  abbrev pub then_run :
      (Players → Result (Unit {0}) × Players)
      → Result (Unit {0}) × Players
      → Result (Unit {0}) × Players
  then_run next (err e, s) = (err e, s)
  then_run next (ok u, s) = next s

  then_run-ok :
      (next : Players → Result (Unit {0}) × Players) (r : Result (Unit {0}) × Players)
      → r.0 ≡ ok tt
      → then_run next r ≡ next r.1
  then_run-ok next (ok u, s) e = refl
  then_run-ok next (err x, s) e = cc

  -- The calls up to the first that raises.
  abbrev pub run : List Call → Players → Result (Unit {0}) × Players
  run [] s = (ok tt, s)
  run (c ∷ calls) s = then_run (run calls) (call c s)

  -- A session that is added shares no token, id or safe name with one that is online then.
  abbrev pub is_admitted : List Call → List ℕ → Bool
  is_admitted [] ids = true
  is_admitted (append_call p ∷ calls) ids =
      (contains p ids || is_new sessions lower p ids) && is_admitted calls (add_once p ids)
  is_admitted (remove_call p ∷ calls) ids = is_admitted calls (remove p ids)

  -- `get` without the indices
  abbrev pub search_list : Option Text → Option ℕ → Option Text → List ℕ → Option ℕ
  search_list (some token) id name ids = holder same_text (token_of sessions lower) token ids
  search_list none (some id) name ids = holder ◌==◌ (id_of sessions lower) id ids
  search_list none none (some name) ids =
      holder same_text (safe_name_of sessions lower) (make_safe_name lower name) ids
  search_list none none none ids = none

  get-search_list :
      (s : Players)
      → IsIndexed sessions lower s
      → (token : Option Text) (id : Option ℕ) (name : Option Text)
      → get sessions lower token id name s ≡ search_list token id name s.online
  unfolding get
  get-search_list s v (some token) id name = v.tokens token
  get-search_list s v none (some id) name = v.ids id
  get-search_list s v none none (some name) = v.names _
  get-search_list s v none none none = refl

  append-online : (p : ℕ) (s : Players) → (append sessions lower p s).online ≡ add_once p s.online
  unfolding append
  append-online p s = ground arith

  run-IsIndexed :
      (calls : List Call) (s : Players)
      → IsIndexed sessions lower s
      → is_admitted calls s.online ≡ true
      → let r = run calls s in
        (r.0 ≡ ok tt) × (r.1.online ≡ replay calls s.online) × IsIndexed sessions lower r.1
  run-IsIndexed [] s v h = (refl, refl, v)
  run-IsIndexed (append_call p ∷ calls) s v h =
      let (now, later) = both _ _ h in
      let same = append-online p s in
      let (fine, online, valid) =
        run-IsIndexed calls (append sessions lower p s) (append-IsIndexed sessions lower p s v now)
          (ap (is_admitted calls) same ∙ later) in
      (fine, online ∙ ap (replay calls) same, valid)
  run-IsIndexed (remove_call p ∷ calls) s v h =
      let (removed, same, valid) = remove_player-IsIndexed sessions lower p s v in
      let (fine, online, valid) =
        run-IsIndexed calls (remove_player sessions lower p s).1 valid
          (ap (is_admitted calls) same ∙ h) in
      rw (then_run-ok (run calls) (remove_player sessions lower p s) removed)
        (fine, online ∙ ap (replay calls) same, valid)

  -- However sessions are added to and removed from an empty list of players, if each session that
  -- is added shares no token, no id and no safe name with another that is online then, no call
  -- raises, and `get` answers, for any token, id or name, the first session with it of the list
  -- that the same calls make without indices.
  pub players_refine :
      (calls : List Call)
      → is_admitted calls [] ≡ true
      → let r = run calls no_players in
        (r.0 ≡ ok tt)
        × (r.1.online ≡ replay calls [])
        × ((token : Option Text) (id : Option ℕ) (name : Option Text)
            → get sessions lower token id name r.1 ≡ search_list token id name (replay calls []))
  players_refine calls h =
      let (fine, online, valid) =
        run-IsIndexed calls no_players (no_players-IsIndexed sessions lower) h in
      (
        fine,
        online,
        λ token id name.
            get-search_list (run calls no_players).1 valid token id name
            ∙ ap (search_list token id name) online,
      )

  -- Two sessions with one id and with tokens of their own are added to an empty list, and the first
  -- of them is removed: this raises nothing and leaves the second in the list, but `get` finds
  -- nobody by the id, and the removal of the second raises KeyError.
  pub remove_player-same_user :
      (p q : ℕ)
      → (p == q) ≡ false
      → same_text (token_of sessions lower p) (token_of sessions lower q) ≡ false
      → id_of sessions lower p ≡ id_of sessions lower q
      → let r = run (append_call p ∷ append_call q ∷ remove_call p ∷ []) no_players in
        (r.0 ≡ ok tt)
        × (r.1.online ≡ q ∷ [])
        × (get sessions lower none (some (id_of sessions lower q)) none r.1 ≡ none)
        × ((remove_player sessions lower q r.1).0 ≡ err key_error)
  unfolding append remove_player get
  remove_player-same_user p q apart tokens ids =
      let same_p : (p == p) ≡ true = (==_iff p p).1 refl in
      let same_q : (q == q) ≡ true = (==_iff q q).1 refl in
      let apart' : (q == p) ≡ false = ground (arith, apart) in
      let token_p =
        (same_text_iff (token_of sessions lower p) (token_of sessions lower p)).1 refl in
      let token_q =
        (same_text_iff (token_of sessions lower q) (token_of sessions lower q)).1 refl in
      let tokens' : same_text (token_of sessions lower q) (token_of sessions lower p) ≡ false =
        ground (
          arith,
          tokens,
          same_text_iff (token_of sessions lower q) (token_of sessions lower p),
          same_text_iff (token_of sessions lower p) (token_of sessions lower q),
        ) in
      let id_q = (==_iff (id_of sessions lower q) (id_of sessions lower q)).1 refl in
      let name_p =
        (same_text_iff (safe_name_of sessions lower p) (safe_name_of sessions lower p)).1 refl in
      elim (Bool-cases
        (same_text (safe_name_of sessions lower q) (safe_name_of sessions lower p))) [
          | inl one_name ↦
              simp
                (
                  apart, apart', same_p, same_q, tokens', tokens, token_q, token_p, ids, id_q,
                  name_p, one_name,
                )
                (refl, refl, refl, refl)
          | inr other ↦
              simp
                (
                  apart, apart', same_p, same_q, tokens', tokens, token_q, token_p, ids, id_q,
                  name_p, other,
                )
                (refl, refl, refl, refl)
        ]
