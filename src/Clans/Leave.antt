-- ===== src/Clans/Leave.antt =====
-- Leaving a clan, handing it over and disbanding it: app/services/clans.py.
use bancho_prism_1_0_0_prod.Base.{
  ℕ, ◌≡◌, refl, sym, ◌∙◌, ap, subst, arith, List, [], ◌∷◌, Bool, true, false, not, Option, none,
  some, ◌==◌, ==_iff, Bool-cases, inl, inr, Result, ok,
}
use bancho_prism_1_0_0_prod.Match.Complete.{contains}
use bancho_prism_1_0_0_prod.Spectators.{is_empty}
use bancho_prism_1_0_0_prod.Players.{those}
use bancho_prism_1_0_0_prod.Clans.{
  User, Clan, State, owner_priv, fetch_user, set_clan, put_clan, sync, fetch_members, clear_users,
  clear_sessions, LeaveClanResult, left, not_in_clan, disband_row, disband_clan, leave_clan_of,
  leave_found, leave_row, leave_clan,
}
use bancho_prism_1_0_0_prod.Clans.Consistent.{IsSound, IsSound-clear, IsSound-disband}
use bancho_prism_1_0_0_prod.Clans.Members.{
  CachedExcept, SameTables, sync-SameTables, sync-CachedExcept, clear_users-row, clear_users-tables,
  contains-those,
}
use bancho_prism_1_0_0_prod.Clans.Kept.{
  HasSound, IsConsistent, nobody, one_row, if-IsConsistent, fetch_user-form,
}

nonempty : (u : ℕ) (ids : List ℕ) → contains u ids ≡ true → is_empty ids ≡ false
nonempty u [] h = cc
nonempty u (m ∷ ids) h = refl

-- Somebody who leaves is not the owner, who stays behind.
leave_clan_of-form :
    (p : ℕ) (clan : Clan) (s : State)
    → HasSound s
    → ((s.user p).clan_priv == owner_priv) ≡ false
    → s.clan (s.user p).clan_id ≡ some clan
    → leave_clan_of p clan s ≡ (ok (left clan false), sync p none none (set_clan p 0 0 s))
leave_clan_of-form p clan s v member there =
    let (c_id, owner_there, owner_clan, owner_rank) = v.owners (s.user p).clan_id clan there in
    let other : (clan.owner == p) ≡ false = elim (Bool-cases (clan.owner == p)) [
      | inl mine ↦
          let q : clan.owner ≡ p = (==_iff clan.owner p).0 mine in
          absurd (ground (arith, owner_rank, q, member))
      | inr other ↦ other
    ] in
    let in_clan : ((s.user clan.owner).clan_id == clan.id) ≡ true =
      (==_iff _ _).1 (owner_clan ∙ sym c_id) in
    let listed : contains clan.owner (fetch_members clan.id s) ≡ true =
      contains-those (λ u. (s.user u).clan_id == clan.id) clan.owner s.user_ids
      ∙ (rw (owner_there, in_clan) refl) in
    let stays : contains clan.owner (those (λ u. not (u == p)) (fetch_members clan.id s)) ≡ true =
      contains-those (λ u. not (u == p)) clan.owner (fetch_members clan.id s)
      ∙ (rw (listed, other) refl) in
    rw (nonempty clan.owner _ stays) refl

leave_found-IsConsistent :
    (p : ℕ) (clan : Option Clan) (s : State)
    → IsConsistent s
    → ((s.user p).clan_priv == owner_priv) ≡ false
    → s.clan (s.user p).clan_id ≡ clan
    → IsConsistent (leave_found p clan s).1
leave_found-IsConsistent p none s v member e = v
leave_found-IsConsistent p (some clan) s v member e =
    let self : (p == p) ≡ true = (==_iff p p).1 refl in
    subst (λ r. IsConsistent r.1) (sym (leave_clan_of-form p clan s v.sound member e))
      (one_row p none none s (set_clan p 0 0 s)
        (IsSound-clear s.user_ids s.user s.clan s.next_id v.sound p member) v.cached v.alone refl
        refl (λ u other. rw other refl) (rw self refl))

leave_row-IsConsistent :
    (p : ℕ) (player : Option User) (s : State)
    → IsConsistent s
    → fetch_user p s ≡ player
    → IsConsistent (leave_row p player s).1
leave_row-IsConsistent p none s v e = v
leave_row-IsConsistent p (some player) s v e =
    let (there, row) = fetch_user-form p s player e in
    if-IsConsistent (player.clan_id == 0) (ok not_in_clan, s) _ v
      (elim (Bool-cases (player.clan_priv == owner_priv)) [
        | inl owner ↦ rw owner v
        | inr member ↦ rw member (
            leave_found-IsConsistent p (s.clan player.clan_id) s v (rw row member)
              (ap (λ (u : User). s.clan u.clan_id) row))
      ])

pub leave_clan-IsConsistent : (p : ℕ) (s : State) → IsConsistent s → IsConsistent (leave_clan p s).1
unfolding leave_clan
leave_clan-IsConsistent p s v = leave_row-IsConsistent p (fetch_user p s) s v refl

-- What a call that lets somebody leave has done.
abbrev LeftClan : State → Result LeaveClanResult × State → Type 0
LeftClan s r = (c : Clan) (d : Bool) → r.0 ≡ ok (left c d) → (d ≡ false) × (r.1.clan ≡ s.clan)

leave_found-LeftClan :
    (p : ℕ) (clan : Option Clan) (s : State)
    → HasSound s
    → ((s.user p).clan_priv == owner_priv) ≡ false
    → s.clan (s.user p).clan_id ≡ clan
    → LeftClan s (leave_found p clan s)
leave_found-LeftClan p none s v member e = λ c d h. absurd cc
leave_found-LeftClan p (some clan) s v member e =
    subst (LeftClan s) (sym (leave_clan_of-form p clan s v member e)) (λ c d h. (
      (let same : ok (left clan false) ≡ ok (left c d) = h in sym cc),
      (sync-SameTables p none none (set_clan p 0 0 s)).2,
    ))

leave_row-LeftClan :
    (p : ℕ) (player : Option User) (s : State)
    → HasSound s
    → fetch_user p s ≡ player
    → LeftClan s (leave_row p player s)
leave_row-LeftClan p none s v e = λ c d h. absurd cc
leave_row-LeftClan p (some player) s v e =
    let (there, row) = fetch_user-form p s player e in
    elim (Bool-cases (player.clan_id == 0)) [
      | inl outside ↦ rw outside (λ c d h. absurd cc)
      | inr inside ↦ elim (Bool-cases (player.clan_priv == owner_priv)) [
        | inl owner ↦ rw (inside, owner) (λ c d h. absurd cc)
        | inr member ↦
            rw (inside, member)
              (leave_found-LeftClan p (s.clan player.clan_id) s v (rw row member)
                (ap (λ (u : User). s.clan u.clan_id) row))
      ]
    ]

-- From sound tables, in which owners and clans agree, whoever leaves a clan leaves it standing: the
-- result never says that the clan was disbanded, and the clans are as before.
pub leave_clan_disbands_nothing :
    (p : ℕ) (s : State) (c : Clan) (disbanded : Bool)
    → HasSound s
    → (leave_clan p s).0 ≡ ok (left c disbanded)
    → (disbanded ≡ false) × ((leave_clan p s).1.clan ≡ s.clan)
unfolding leave_clan
leave_clan_disbands_nothing p s c disbanded v h =
    leave_row-LeftClan p (fetch_user p s) s v refl c disbanded h

clear_sessions-SameTables : (members : List ℕ) (s : State) → SameTables s (clear_sessions members s)
clear_sessions-SameTables [] s = (refl, refl, refl, refl, refl)
clear_sessions-SameTables (m ∷ members) s =
    let (a, b, c, d, e) = sync-SameTables m none none s in
    let (a', b', c', d', e') = clear_sessions-SameTables members (sync m none none s) in
    (a' ∙ a, b' ∙ b, c' ∙ c, d' ∙ d, e' ∙ e)

clear_sessions-CachedExcept :
    (members : List ℕ) (s : State)
    → CachedExcept (λ u. contains u members) s
    → ((u : ℕ) → contains u members ≡ true → (s.user u).clan_id ≡ 0)
    → CachedExcept nobody (clear_sessions members s)
clear_sessions-CachedExcept [] s h rows = h
clear_sessions-CachedExcept (m ∷ members) s h rows =
    let self : (m == m) ≡ true = (==_iff m m).1 refl in
    let none_left : (s.user m).clan_id ≡ 0 = rows m (rw self refl) in
    let (a, b, c, d, e) = sync-SameTables m none none s in
    clear_sessions-CachedExcept members (sync m none none s)
      (sync-CachedExcept m none none s (λ u. contains u (m ∷ members)) (λ u. contains u members) h
        (λ u k other. ground (arith, k, other)) (rw none_left refl))
      (λ u there. rw b (rows u (ground (arith, there))))

disband_row-IsConsistent :
    (k : ℕ) (clan : Option Clan) (s : State)
    → IsConsistent s
    → s.clan k ≡ clan
    → IsConsistent (disband_row clan s).1
disband_row-IsConsistent k none s v e = v
disband_row-IsConsistent k (some clan) s v e =
    let members = fetch_members clan.id s in
    let cleared = clear_users members (put_clan clan.id none s) in
    let (ids, clans, next, online, hidden) = clear_users-tables members (put_clan clan.id none s) in
    let row = clear_users-row members (put_clan clan.id none s) in
    let is_member = contains-those (λ u. (s.user u).clan_id == clan.id) in
    let sound : IsSound cleared.user_ids cleared.user cleared.clan cleared.next_id =
      rw (ids, clans, next)
        (IsSound-disband s.user_ids s.user s.clan s.next_id v.sound clan.id cleared.user
          (λ u there. row u ∙ (rw (is_member u s.user_ids, there) refl))) in
    let (a, b, c, d, kept) = clear_sessions-SameTables members cleared in
    record {
      sound = rw (a, b, c, d) sound;
      cached =
          clear_sessions-CachedExcept members cleared
            (λ u x k there. rw (row u, k) (v.cached u x refl (rw online at there)))
            (λ u there. rw (row u, there) refl);
      alone = λ u. ap (λ f. f u) (kept ∙ hidden) ∙ v.alone u;
    }

pub disband_clan-IsConsistent :
    (k : ℕ) (s : State) → IsConsistent s → IsConsistent (disband_clan k s).1
unfolding disband_clan
disband_clan-IsConsistent k s v = disband_row-IsConsistent k (s.clan k) s v refl
