-- ===== src/Clans/Members.antt =====
-- The clan that online sessions cache, and the rows of a clan's members, under the writes of
-- app/services/clans.py.
use bancho_prism_1_0_0_prod.Base.{
  ℕ, ◌≡◌, refl, sym, ◌∙◌, ap, arith, List, [], ◌∷◌, Bool, true, false, ◌&&◌, Option, none, some,
  ◌==◌, ==_iff, if◌then◌else◌, Bool-cases, inl, inr,
}
use bancho_prism_1_0_0_prod.Match.{is_none}
use bancho_prism_1_0_0_prod.Match.Complete.{contains}
use bancho_prism_1_0_0_prod.Players.{those}
use bancho_prism_1_0_0_prod.Clans.{User, Session, State, sync, set_clan, clear_users}

-- What a session caches of a row.
abbrev pub session_of : User → Session
session_of user =
    if user.clan_id == 0
    then record { clan_id = none; clan_priv = none }
    else record { clan_id = some user.clan_id; clan_priv = some user.clan_priv }

-- The sessions agree with the rows, but for some users.
abbrev pub CachedExcept : (ℕ → Bool) → State → Type 0
CachedExcept skip s =
    (u : ℕ) (x : Session) → skip u ≡ false → s.online u ≡ some x → x ≡ session_of (s.user u)

-- Nothing but the sessions differs.
abbrev pub SameTables : State → State → Type 0
SameTables s t =
    (t.user_ids ≡ s.user_ids)
    × (t.user ≡ s.user)
    × (t.clan ≡ s.clan)
    × (t.next_id ≡ s.next_id)
    × (t.hidden ≡ s.hidden)

pub sync-SameTables : (p : ℕ) (a b : Option ℕ) (s : State) → SameTables s (sync p a b s)
sync-SameTables p a b s = elim (Bool-cases (is_none (s.online p))) [
  | inl absent ↦ rw absent (refl, refl, refl, refl, refl)
  | inr online ↦ rw online (refl, refl, refl, refl, refl)
]

pub sync-CachedExcept :
    (p : ℕ) (a b : Option ℕ) (s : State) (skip later : ℕ → Bool)
    → CachedExcept skip s
    → ((u : ℕ) → later u ≡ false → (u == p) ≡ false → skip u ≡ false)
    → record { clan_id = a; clan_priv = b } ≡ session_of (s.user p)
    → CachedExcept later (sync p a b s)
sync-CachedExcept p a b s skip later h fewer e u x k there =
    elim (Bool-cases (is_none (s.online p))) [
      | inl absent ↦
          let listed : s.online u ≡ some x = rw absent at there in
          let other : (u == p) ≡ false = elim (Bool-cases (u == p)) [
            | inl here ↦
                let q : u ≡ p = (==_iff u p).0 here in
                let gone : is_none (s.online u) ≡ true = rw q absent in
                absurd (ground (arith, gone, listed))
            | inr other ↦ other
          ] in
          rw absent (h u x (fewer u k other) listed)
      | inr online ↦ elim (Bool-cases (u == p)) [
        | inl here ↦
            let q : u ≡ p = (==_iff u p).0 here in
            let given : some (record { clan_id = a; clan_priv = b }) ≡ some x =
              rw (online, here) at there in
            let f : record { clan_id = a; clan_priv = b } ≡ x = cc in rw (online, q) (sym f ∙ e)
        | inr other ↦
            let listed : s.online u ≡ some x = rw (online, other) at there in
            rw online (h u x (fewer u k other) listed)
      ]
    ]

pub clear_users-row :
    (members : List ℕ) (s : State) (u : ℕ)
    → (clear_users members s).user u
      ≡ (if contains u members then record (s.user u) { clan_id = 0; clan_priv = 0 } else s.user u)
clear_users-row [] s u = refl
clear_users-row (m ∷ members) s u =
    clear_users-row members (set_clan m 0 0 s) u ∙ elim (Bool-cases (u == m)) [
      | inl here ↦
          let q : u ≡ m = (==_iff u m).0 here in
          let self : (m == m) ≡ true = (==_iff m m).1 refl in
          elim (Bool-cases (contains m members)) [
            | inl there ↦ rw (q, self, there) refl
            | inr gone ↦ rw (q, self, gone) refl
          ]
      | inr other ↦
          let flipped : (m == u) ≡ false = ground (arith, other) in rw (other, flipped) refl
    ]

pub clear_users-tables :
    (members : List ℕ) (s : State)
    → let t = clear_users members s in
      (t.user_ids ≡ s.user_ids)
      × (t.clan ≡ s.clan)
      × (t.next_id ≡ s.next_id)
      × (t.online ≡ s.online)
      × (t.hidden ≡ s.hidden)
clear_users-tables [] s = (refl, refl, refl, refl, refl)
clear_users-tables (m ∷ members) s = clear_users-tables members (set_clan m 0 0 s)

pub contains-those :
    (test : ℕ → Bool) (u : ℕ) (ids : List ℕ)
    → contains u (those test ids) ≡ (contains u ids && test u)
contains-those test u [] = refl
contains-those test u (m ∷ ids) = elim (Bool-cases (m == u)) [
  | inl here ↦
      let e : m ≡ u = (==_iff m u).0 here in
      ground (arith, contains-those test u ids, ap test e, here)
  | inr other ↦ ground (arith, contains-those test u ids, other)
]
