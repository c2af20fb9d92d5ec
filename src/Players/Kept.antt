-- ===== src/Players/Kept.antt =====
-- The three indices of Players in app/objects/collections.py agree with the list of players, and
-- no two players of the list share a token, an id or a safe name: this is kept by `append` of a
-- session that shares none with the list and by `remove`, which then raises nothing.
use bancho_prism_1_0_0_prod.Base.{
  ℕ, List, [], ◌∷◌, Bool, true, false, ◌&&◌, ◌||◌, Option, none, some, ◌≡◌, refl, sym, ◌∙◌, arith,
  Bool-cases, inl, inr, ◌==◌, ==_iff, ok,
}
use bancho_prism_1_0_0_prod.Utf8.{Text}
use bancho_prism_1_0_0_prod.Match.{is_none}
use bancho_prism_1_0_0_prod.Match.Complete.{contains}
use bancho_prism_1_0_0_prod.Match.Membership.{remove, same_text}
use bancho_prism_1_0_0_prod.Players.{
  Session, Players, no_players, token_of, id_of, safe_name_of, append, remove_player, without,
}
use bancho_prism_1_0_0_prod.Players.Index.{
  holder, Agrees, Distinct, same_text_iff, Agrees-put, Distinct-append, Agrees-without,
  Distinct-remove, holder-contains,
}

is_none-eq : (o : Option ℕ) → is_none o ≡ true → o ≡ none
is_none-eq none h = refl
is_none-eq (some p) h = cc

-- Of four conditions, the first fails and the others hold.
others :
    (a b c d : Bool) → (a || b && c && d) ≡ true → a ≡ false → (b ≡ true) × (c ≡ true) × (d ≡ true)
others a b c d h e = ground arith

module _ (sessions : ℕ → Session) (lower : Text → Text) where
  pub record IsIndexed (s : Players) : Type 0 where
    pub tokens : Agrees same_text (token_of sessions lower) s.online s.by_token
    pub ids : Agrees ◌==◌ (id_of sessions lower) s.online s.by_id
    pub names : Agrees same_text (safe_name_of sessions lower) s.online s.by_name
    pub one_token : Distinct same_text (token_of sessions lower) s.online
    pub one_id : Distinct ◌==◌ (id_of sessions lower) s.online
    pub one_name : Distinct same_text (safe_name_of sessions lower) s.online

  -- No session of the list has the token, the id or the safe name of `p`.
  abbrev pub is_new : ℕ → List ℕ → Bool
  is_new p ids =
      is_none (holder same_text (token_of sessions lower) (token_of sessions lower p) ids)
      && is_none (holder ◌==◌ (id_of sessions lower) (id_of sessions lower p) ids)
      && is_none
          (holder same_text (safe_name_of sessions lower) (safe_name_of sessions lower p) ids)

  pub no_players-IsIndexed : IsIndexed no_players
  unfolding holder Distinct
  no_players-IsIndexed = record {
    tokens = λ k. refl;
    ids = λ k. refl;
    names = λ k. refl;
    one_token = tt;
    one_id = tt;
    one_name = tt;
  }

  pub append-IsIndexed :
      (p : ℕ) (s : Players)
      → IsIndexed s
      → (contains p s.online || is_new p s.online) ≡ true
      → IsIndexed (append sessions lower p s)
  unfolding append
  append-IsIndexed p s v h = elim (Bool-cases (contains p s.online)) [
    | inl there ↦ rw there v
    | inr absent ↦ rw absent (
        let (t, i, n) = others _ _ _ _ h absent in
        record {
          tokens =
              Agrees-put same_text same_text_iff _ p s.online s.by_token v.tokens (is_none-eq _ t);
          ids = Agrees-put ◌==◌ ==_iff _ p s.online s.by_id v.ids (is_none-eq _ i);
          names =
              Agrees-put same_text same_text_iff _ p s.online s.by_name v.names (is_none-eq _ n);
          one_token =
              Distinct-append same_text same_text_iff _ p s.online v.one_token (is_none-eq _ t);
          one_id = Distinct-append ◌==◌ ==_iff _ p s.online v.one_id (is_none-eq _ i);
          one_name =
              Distinct-append same_text same_text_iff _ p s.online v.one_name (is_none-eq _ n);
        })
  ]

  removed : ℕ → Players → Players
  removed p s = record {
    online = remove p s.online;
    by_token = without same_text (token_of sessions lower p) s.by_token;
    by_id = without ◌==◌ (id_of sessions lower p) s.by_id;
    by_name = without same_text (safe_name_of sessions lower p) s.by_name;
  }

  removed-IsIndexed :
      (p : ℕ) (s : Players) → IsIndexed s → contains p s.online ≡ true → IsIndexed (removed p s)
  unfolding removed
  removed-IsIndexed p s v h = record {
    tokens = Agrees-without same_text same_text_iff _ p s.online s.by_token v.one_token h v.tokens;
    ids = Agrees-without ◌==◌ ==_iff _ p s.online s.by_id v.one_id h v.ids;
    names = Agrees-without same_text same_text_iff _ p s.online s.by_name v.one_name h v.names;
    one_token = Distinct-remove same_text same_text_iff _ p s.online v.one_token;
    one_id = Distinct-remove ◌==◌ ==_iff _ p s.online v.one_id;
    one_name = Distinct-remove same_text same_text_iff _ p s.online v.one_name;
  }

  -- Each `del` finds its key.
  remove_player-listed :
      (p : ℕ) (s : Players)
      → IsIndexed s
      → contains p s.online ≡ true
      → remove_player sessions lower p s ≡ (ok tt, removed p s)
  unfolding remove_player removed
  remove_player-listed p s v h =
      let token = v.tokens _ ∙ holder-contains same_text same_text_iff _ p s.online v.one_token h in
      let id = v.ids _ ∙ holder-contains ◌==◌ ==_iff _ p s.online v.one_id h in
      let name = v.names _ ∙ holder-contains same_text same_text_iff _ p s.online v.one_name h in
      rw (h, token, id, name) refl

  pub remove_absent : (p : ℕ) (ids : List ℕ) → contains p ids ≡ false → remove p ids ≡ ids
  remove_absent p [] h = refl
  remove_absent p (q ∷ ids) h = ground (arith, remove_absent p ids)

  pub remove_player-IsIndexed :
      (p : ℕ) (s : Players)
      → IsIndexed s
      → let r = remove_player sessions lower p s in
        (r.0 ≡ ok tt) × (r.1.online ≡ remove p s.online) × IsIndexed r.1
  unfolding removed
  remove_player-IsIndexed p s v = elim (Bool-cases (contains p s.online)) [
    | inl there ↦ rw (remove_player-listed p s v there) (refl, refl, removed-IsIndexed p s v there)
    | inr absent ↦
        unfold remove_player in rw absent (refl, sym (remove_absent p s.online absent), v)
  ]
