-- ===== src/Clans/Kept.antt =====
-- Each operation of ClansService in app/services/clans.py keeps the tables sound and the online
-- sessions in agreement with them.
use bancho_prism_1_0_0_prod.Base.{
  ℕ, ◌+◌, ◌≡◌, refl, sym, ◌∙◌, ap, arith, [], Bool, true, false, not, ◌&&◌, Option, none, some,
  ◌==◌, ==_iff, if◌then◌else◌, Bool-cases, inl, inr, ok, leb, length,
}
use bancho_prism_1_0_0_prod.Utf8.{Text}
use bancho_prism_1_0_0_prod.Match.Complete.{contains}
use bancho_prism_1_0_0_prod.Clans.{
  User, Clan, State, owner_priv, fetch_user, set_clan, put_clan, sync, any_clan, invalid_tag,
  invalid_name, add_clan, create_outside, create_row, create_clan,
}
use bancho_prism_1_0_0_prod.Clans.Consistent.{IsSound, IsSound-create}
use bancho_prism_1_0_0_prod.Clans.Members.{
  session_of, CachedExcept, sync-SameTables, sync-CachedExcept,
}

abbrev pub nobody : ℕ → Bool
nobody u = false

-- Sound tables, as a property of the state.
abbrev pub HasSound : State → Type 0
HasSound s = IsSound s.user_ids s.user s.clan s.next_id

-- Sound tables, sessions that agree with them, and one session at most for each user.
pub record IsConsistent (s : State) : Type 0 where
  pub sound : IsSound s.user_ids s.user s.clan s.next_id
  pub cached : CachedExcept nobody s
  pub alone : (u : ℕ) → s.hidden u ≡ []

pub IsSound-sync :
    (p : ℕ) (a b : Option ℕ) (s : State)
    → IsSound s.user_ids s.user s.clan s.next_id
    → let t = sync p a b s in IsSound t.user_ids t.user t.clan t.next_id
IsSound-sync p a b s v =
    let (ids, user, clan, next, hidden) = sync-SameTables p a b s in rw (ids, user, clan, next) v

-- One user's row and session change together.
pub one_row :
    (p : ℕ) (a b : Option ℕ) (before s : State)
    → IsSound s.user_ids s.user s.clan s.next_id
    → CachedExcept nobody before
    → ((u : ℕ) → before.hidden u ≡ [])
    → s.online ≡ before.online
    → s.hidden ≡ before.hidden
    → ((u : ℕ) → (u == p) ≡ false → s.user u ≡ before.user u)
    → record { clan_id = a; clan_priv = b } ≡ session_of (s.user p)
    → IsConsistent (sync p a b s)
one_row p a b before s v h alone online hidden rows e = record {
  sound = IsSound-sync p a b s v;
  cached =
      sync-CachedExcept p a b s (λ u. u == p) nobody
        (λ u x k there. rw (rows u k) (h u x refl (rw online at there))) (λ u k other. other) e;
  alone = λ u.
      let (_, _, _, _, kept) = sync-SameTables p a b s in ap (λ f. f u) (kept ∙ hidden) ∙ alone u;
}

-- Whichever way a test goes.
pub if-IsConsistent :
    {R : Type 0} (b : Bool) (x y : R × State)
    → IsConsistent x.1
    → IsConsistent y.1
    → IsConsistent (if b then x else y).1
if-IsConsistent true x y h k = h
if-IsConsistent false x y h k = k

pub fetch_user-form :
    (p : ℕ) (s : State) (u : User)
    → fetch_user p s ≡ some u
    → (contains p s.user_ids ≡ true) × (s.user p ≡ u)
fetch_user-form p s u e = elim (Bool-cases (contains p s.user_ids)) [
  | inl there ↦ let f : some (s.user p) ≡ some u = rw there at e in (there, cc)
  | inr absent ↦ let f : none ≡ some u = rw absent at e in absurd cc
]

add_clan-IsConsistent :
    (p : ℕ) (tag name : Text) (s : State)
    → IsConsistent s
    → contains p s.user_ids ≡ true
    → s.clan (s.user p).clan_id ≡ none
    → IsConsistent (add_clan p tag name s).1
add_clan-IsConsistent p tag name s v there no_clan =
    let clan : Clan = record { id = s.next_id; name = name; tag = tag; owner = p } in
    let self : (p == p) ≡ true = (==_iff p p).1 refl in
    let positive : (s.next_id == 0) ≡ false = ground (arith, v.sound.started) in
    one_row p (some s.next_id) (some owner_priv) s
      (set_clan p s.next_id owner_priv
        (record (put_clan s.next_id (some clan) s) { next_id = s.next_id + 1 }))
      (IsSound-create s.user_ids s.user s.clan s.next_id v.sound p clan there no_clan refl refl)
      v.cached v.alone refl refl (λ u other. rw other refl) (rw (self, positive) refl)

module _ (matches : Text → Text → Bool) (upper : Text → Text) where
  create_outside-IsConsistent :
      (current : Option Clan) (p : ℕ) (tag name : Text) (s : State)
      → IsConsistent s
      → contains p s.user_ids ≡ true
      → current ≡ (if (s.user p).clan_id == 0 then none else s.clan (s.user p).clan_id)
      → IsConsistent (create_outside matches upper current p tag name s).1
  create_outside-IsConsistent (some current) p tag name s v there e = v
  create_outside-IsConsistent none p tag name s v there e =
      let no_clan : s.clan (s.user p).clan_id ≡ none = elim (Bool-cases ((s.user p).clan_id == 0)) [
        | inl zero_id ↦
            let q : (s.user p).clan_id ≡ 0 = (==_iff (s.user p).clan_id 0).0 zero_id in
            ap s.clan q ∙ v.sound.no_zero
        | inr some_id ↦ sym (rw some_id at e)
      ] in
      if-IsConsistent (any_clan (λ c. matches c.name name) s.next_id s) _ _ v (
        if-IsConsistent (any_clan (λ c. matches c.tag tag) s.next_id s) _ _ v
          (add_clan-IsConsistent p tag name s v there no_clan))

  create_row-IsConsistent :
      (player : Option User) (p : ℕ) (tag name : Text) (s : State)
      → IsConsistent s
      → fetch_user p s ≡ player
      → IsConsistent (create_row matches upper player p tag name s).1
  create_row-IsConsistent none p tag name s v e = v
  create_row-IsConsistent (some player) p tag name s v e =
      let (there, row) = fetch_user-form p s player e in
      create_outside-IsConsistent _ p tag name s v there (rw row refl)

  pub create_clan-IsConsistent :
      (p : ℕ) (tag name : Text) (s : State)
      → IsConsistent s
      → IsConsistent (create_clan matches upper p tag name s).1
  unfolding create_clan
  create_clan-IsConsistent p tag name s v =
      if-IsConsistent (not (leb 1 (length (upper tag)) && leb (length (upper tag)) 6))
        (ok invalid_tag, s) _ v
        (if-IsConsistent (not (leb 2 (length name) && leb (length name) 16)) (ok invalid_name, s)
          (create_row matches upper (fetch_user p s) p (upper tag) name s) v
          (create_row-IsConsistent (fetch_user p s) p (upper tag) name s v refl))
