-- ===== src/Clans/Consistent.antt =====
-- What app/services/clans.py keeps of the tables: every clan's owner is a user of that clan with the
-- owner's privilege, and every user with that privilege owns its clan. `IsCached` is the agreement of
-- the online sessions with the users' rows.
use bancho_prism_1_0_0_prod.Base.{
  ℕ, ◌+◌, ◌≤◌, ◌<◌, ◌≡◌, refl, sym, ◌∙◌, ap, arith, List, true, false, Option, none, some, ◌==◌,
  ==_iff, if◌then◌else◌, Bool-cases, inl, inr,
}
use bancho_prism_1_0_0_prod.Match.Complete.{contains}
use bancho_prism_1_0_0_prod.Spectators.{update}
use bancho_prism_1_0_0_prod.Clans.{User, Clan, owner_priv, officer}

module _ (ids : List ℕ) where
  pub record IsSound (user : ℕ → User) (clan : ℕ → Option Clan) (next_id : ℕ) : Type 0 where
    pub owners :
        (id : ℕ) (c : Clan)
        → clan id ≡ some c
        → (c.id ≡ id)
          × (contains c.owner ids ≡ true)
          × ((user c.owner).clan_id ≡ id)
          × ((user c.owner).clan_priv ≡ owner_priv)
    pub owned :
        (u : ℕ)
        → contains u ids ≡ true
        → (user u).clan_priv ≡ owner_priv
        → (c : Clan) × (clan (user u).clan_id ≡ some c) × (c.owner ≡ u)
    pub fresh : (id : ℕ) → next_id ≤ id → clan id ≡ none
    pub no_zero : clan 0 ≡ none
    pub started : 0 < next_id

same : (n : ℕ) → (n == n) ≡ true
same n = (==_iff n n).1 refl

update_self : {A : Type 0} (k : ℕ) (v : A) (f : ℕ → A) → update k v f k ≡ v
update_self k v f = rw (same k) refl

update_other : {A : Type 0} (k j : ℕ) (v : A) (f : ℕ → A) → (j == k) ≡ false → update k v f j ≡ f j
update_other k j v f h = rw h refl

-- Where a clan is, a free id is not.
taken :
    (clan : ℕ → Option Clan) (n k : ℕ) (c : Clan)
    → clan n ≡ none
    → clan k ≡ some c
    → (k == n) ≡ false
taken clan n k c free there = elim (Bool-cases (k == n)) [
  | inl here ↦ let e : k ≡ n = (==_iff k n).0 here in absurd cc
  | inr other ↦ other
]

untaken :
    (clan : ℕ → Option Clan) (n k : ℕ) (c : Clan)
    → clan n ≡ none
    → clan k ≡ some c
    → (n == k) ≡ false
untaken clan n k c free there = elim (Bool-cases (n == k)) [
  | inl here ↦ let e : n ≡ k = (==_iff n k).0 here in absurd cc
  | inr other ↦ other
]

module _ (ids : List ℕ) (user : ℕ → User) (clan : ℕ → Option Clan) (n : ℕ)
    (v : IsSound ids user clan n) where
  -- A user without a clan gets a new one.
  pub IsSound-create :
      (p : ℕ) (c : Clan)
      → contains p ids ≡ true
      → clan (user p).clan_id ≡ none
      → c.id ≡ n
      → c.owner ≡ p
      → IsSound ids
          (update p (record (user p) { clan_id = n; clan_priv = owner_priv }) user)
          (update n (some c) clan)
          (n + 1)
  IsSound-create p c there no_clan c_id c_owner = record {
    owners = λ id d h. elim (Bool-cases (id == n)) [
      | inl here ↦
          let e : some c ≡ some d = rw here at h in
          let f : c ≡ d = cc in
          let g : id ≡ n = (==_iff id n).0 here in
          rw (← f, c_owner, same p) (c_id ∙ sym g, there, sym g, refl)
      | inr other ↦
          let k : clan id ≡ some d = rw other at h in
          let (a, b, e, f) = v.owners id d k in
          elim (Bool-cases (d.owner == p)) [
            | inl mine ↦ let q : d.owner ≡ p = (==_iff d.owner p).0 mine in absurd cc
            | inr others ↦ rw others (a, b, e, f)
          ]
    ];
    owned = λ u h k. elim (Bool-cases (u == p)) [
      | inl mine ↦ rw (mine, same n) (c, refl, c_owner ∙ sym ((==_iff u p).0 mine))
      | inr others ↦
          let (d, e, f) = v.owned u h (rw others at k) in
          let away = taken clan n (user u).clan_id d (v.fresh n (omega arith)) e in
          rw (others, away) (d, e, f)
    ];
    fresh = λ id h. rw (update_other n id (some c) clan (ground arith)) (v.fresh id (omega arith));
    no_zero = rw (update_other n 0 (some c) clan (ground (arith, v.started))) v.no_zero;
    started = omega arith;
  }

  -- A user who owns no clan leaves its own.
  pub IsSound-clear :
      (p : ℕ)
      → ((user p).clan_priv == owner_priv) ≡ false
      → IsSound ids (update p (record (user p) { clan_id = 0; clan_priv = 0 }) user) clan n
  IsSound-clear p member = record {
    owners = λ id d h.
        let (a, b, e, f) = v.owners id d h in
        let others : (d.owner == p) ≡ false = elim (Bool-cases (d.owner == p)) [
          | inl mine ↦
              let q : d.owner ≡ p = (==_iff d.owner p).0 mine in
              absurd (ground (arith, f, q, member))
          | inr others ↦ others
        ] in
        rw others (a, b, e, f);
    owned = λ u h k. elim (Bool-cases (u == p)) [
      | inl mine ↦ absurd (ground (arith, mine, k))
      | inr others ↦ rw others (v.owned u h (rw others at k))
    ];
    fresh = v.fresh;
    no_zero = v.no_zero;
    started = v.started;
  }

  -- A clan goes, and with it the rows of its members.
  pub IsSound-disband :
      (k : ℕ) (later : ℕ → User)
      → ((u : ℕ)
          → contains u ids ≡ true
          → later u ≡ (
              if (user u).clan_id == k
              then record (user u) { clan_id = 0; clan_priv = 0 }
              else user u))
      → IsSound ids later (update k none clan) n
  IsSound-disband k later rows = record {
    owners = λ id d h. elim (Bool-cases (id == k)) [
      | inl here ↦ let e : none ≡ some d = rw here at h in absurd cc
      | inr other ↦
          let (a, b, e, f) = v.owners id d (rw other at h) in
          let kept : ((user d.owner).clan_id == k) ≡ false = ground (arith, e, other) in
          let row : later d.owner ≡ user d.owner = rows d.owner b ∙ (rw kept refl) in
          rw row (a, b, e, f)
    ];
    owned = λ u h p. elim (Bool-cases ((user u).clan_id == k)) [
      | inl gone ↦ absurd (ground (arith, rows u h, gone, p))
      | inr kept ↦
          let row : later u ≡ user u = rows u h ∙ (rw kept refl) in
          let (d, e, f) = v.owned u h (rw row at p) in rw (row, kept) (d, e, f)
    ];
    fresh = λ id h. ground (arith, v.fresh id h);
    no_zero = ground (arith, v.no_zero);
    started = v.started;
  }

  -- An owner hands its clan to another member.
  pub IsSound-transfer :
      (o t : ℕ) (c : Clan)
      → contains o ids ≡ true
      → (user o).clan_priv ≡ owner_priv
      → clan (user o).clan_id ≡ some c
      → contains t ids ≡ true
      → (user t).clan_id ≡ c.id
      → (t == o) ≡ false
      → let given = update t (record (user t) { clan_priv = owner_priv }) user in
        IsSound ids
          (update o (record (given o) { clan_priv = officer }) given)
          (update c.id (some (record c { owner = t })) clan)
          n
  IsSound-transfer o t c o_there o_priv o_clan t_there t_clan apart =
      let (c_id, _, _, _) = v.owners (user o).clan_id c o_clan in
      record {
        owners = λ id d h. elim (Bool-cases (id == c.id)) [
          | inl here ↦
              let e : some (record c { owner = t }) ≡ some d = rw here at h in
              let f : record c { owner = t } ≡ d = cc in
              let g : id ≡ c.id = (==_iff id c.id).0 here in
              rw (← f, apart, same t) (sym g, t_there, t_clan ∙ sym g, refl)
          | inr other ↦
              let (a, b, e, f) = v.owners id d (rw other at h) in
              let not_o : (d.owner == o) ≡ false = elim (Bool-cases (d.owner == o)) [
                | inl mine ↦
                    let q : d.owner ≡ o = (==_iff d.owner o).0 mine in
                    let z : id ≡ c.id = cc in absurd (ground (arith, other, z))
                | inr others ↦ others
              ] in
              let not_t : (d.owner == t) ≡ false = elim (Bool-cases (d.owner == t)) [
                | inl mine ↦
                    let q : d.owner ≡ t = (==_iff d.owner t).0 mine in
                    let z : id ≡ c.id = cc in absurd (ground (arith, other, z))
                | inr others ↦ others
              ] in
              rw (not_o, not_t) (a, b, e, f)
        ];
        owned = λ u h p. elim (Bool-cases (u == o)) [
          | inl mine ↦ absurd (ground (arith, mine, p))
          | inr not_o ↦ elim (Bool-cases (u == t)) [
            | inl mine ↦
                rw (not_o, mine, t_clan, same c.id)
                  (record c { owner = t }, refl, sym ((==_iff u t).0 mine))
            | inr not_t ↦
                let (d, e, f) = v.owned u h (rw (not_o, not_t) at p) in
                let (c', e', f') = v.owned o o_there o_priv in
                let away : ((user u).clan_id == c.id) ≡ false =
                  elim (Bool-cases ((user u).clan_id == c.id)) [
                    | inl one_clan ↦
                        let g : (user u).clan_id ≡ c.id =
                          (==_iff (user u).clan_id c.id).0 one_clan in
                        let z : u ≡ o = cc in absurd (ground (arith, not_o, z))
                    | inr away ↦ away
                  ] in
                rw (not_o, not_t, away) (d, e, f)
          ]
        ];
        fresh = λ id h.
            let c_there : clan c.id ≡ some c = ap clan c_id ∙ o_clan in
            rw (untaken clan id c.id c (v.fresh id h) c_there) (v.fresh id h);
        no_zero =
            let c_there : clan c.id ≡ some c = ap clan c_id ∙ o_clan in
            rw (untaken clan 0 c.id c v.no_zero c_there) v.no_zero;
        started = v.started;
      }
