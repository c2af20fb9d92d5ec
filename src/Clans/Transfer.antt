-- ===== src/Clans/Transfer.antt =====
-- Handing a clan over, and any sequence of calls of ClansService: app/services/clans.py.
use bancho_prism_1_0_0_prod.Base.{
  ℕ, ◌≡◌, refl, sym, ◌∙◌, ap, arith, List, [], ◌∷◌, Bool, true, false, not, ◌||◌, Option, none,
  some, ◌==◌, ==_iff, Bool-cases, Option-cases, inl, inr,
}
use bancho_prism_1_0_0_prod.Utf8.{Text}
use bancho_prism_1_0_0_prod.Match.Complete.{contains}
use bancho_prism_1_0_0_prod.Replay.Build.{Identity, can_view_player}
use bancho_prism_1_0_0_prod.Clans.{
  User, Clan, State, officer, owner_priv, fetch_user, set_priv, put_clan, sync, create_clan,
  disband_clan, leave_clan, hand_over, transfer_to, transfer_row, transfer_clan_ownership,
}
use bancho_prism_1_0_0_prod.Clans.Consistent.{IsSound-transfer}
use bancho_prism_1_0_0_prod.Clans.Members.{
  session_of, CachedExcept, sync-SameTables, sync-CachedExcept,
}
use bancho_prism_1_0_0_prod.Clans.Kept.{
  IsConsistent, nobody, fetch_user-form, IsSound-sync, create_clan-IsConsistent,
}
use bancho_prism_1_0_0_prod.Clans.Leave.{leave_clan-IsConsistent, disband_clan-IsConsistent}

neither : (a b : Bool) → (a || b) ≡ false → (a ≡ false) × (b ≡ false)
neither a b h = ground arith

-- Of three guards, none holds.
past_guards : (a b c : Bool) → (not a || not b || not c) ≡ false → (a ≡ true) × (b ≡ true)
past_guards a b c h = ground arith

hand_over-IsConsistent :
    (o t : ℕ) (clan : Clan) (s : State)
    → IsConsistent s
    → contains o s.user_ids ≡ true
    → (s.user o).clan_priv ≡ owner_priv
    → s.clan (s.user o).clan_id ≡ some clan
    → contains t s.user_ids ≡ true
    → (s.user t).clan_id ≡ clan.id
    → (t == o) ≡ false
    → IsConsistent (hand_over o t clan s).1
hand_over-IsConsistent o t clan s v o_there o_priv o_clan t_there t_clan apart =
    let ranked =
      set_priv o officer
        (set_priv t owner_priv (put_clan clan.id (some (record clan { owner = t })) s)) in
    let told = sync t (some clan.id) (some owner_priv) ranked in
    let (c_id, _, _, _) = v.sound.owners (s.user o).clan_id clan o_clan in
    let c_there : s.clan clan.id ≡ some clan = ap s.clan c_id ∙ o_clan in
    let some_id : (clan.id == 0) ≡ false = elim (Bool-cases (clan.id == 0)) [
      | inl zero_id ↦
          let q : clan.id ≡ 0 = (==_iff clan.id 0).0 zero_id in
          let gone : s.clan clan.id ≡ none = ap s.clan q ∙ v.sound.no_zero in absurd cc
      | inr some_id ↦ some_id
    ] in
    let self_t : (t == t) ≡ true = (==_iff t t).1 refl in
    let self_o : (o == o) ≡ true = (==_iff o o).1 refl in
    let apart' : (o == t) ≡ false = ground (arith, apart) in
    let sound =
      IsSound-transfer s.user_ids s.user s.clan s.next_id v.sound o t clan o_there o_priv o_clan
        t_there t_clan apart in
    let ranked_cached : CachedExcept (λ u. u == t || u == o) ranked = λ u x k there.
      let (not_t, not_o) = neither (u == t) (u == o) k in
      rw (not_o, not_t) (v.cached u x refl there) in
    let row_t : ranked.user t ≡ record (s.user t) { clan_priv = owner_priv } =
      rw (apart, self_t) refl in
    let row_o : ranked.user o ≡ record (s.user o) { clan_priv = officer } =
      rw (self_o, apart') refl in
    let o_clan_id : (s.user o).clan_id ≡ clan.id = sym c_id in
    let told_cached : CachedExcept (λ u. u == o) told =
      sync-CachedExcept t (some clan.id) (some owner_priv) ranked (λ u. u == t || u == o)
        (λ u. u == o) ranked_cached (λ u k other. rw (other, k) refl)
        (rw (row_t, t_clan, some_id) refl) in
    let (a, rows, c, d, kept) = sync-SameTables t (some clan.id) (some owner_priv) ranked in
    record {
      sound =
          IsSound-sync o (some clan.id) (some officer) told
            (IsSound-sync t (some clan.id) (some owner_priv) ranked sound);
      cached =
          sync-CachedExcept o (some clan.id) (some officer) told (λ u. u == o) nobody told_cached
            (λ u k other. other)
            ((rw (row_o, o_clan_id, some_id) refl) ∙ ap (λ f. session_of (f o)) (sym rows));
      alone = λ u.
          let (_, _, _, _, later) = sync-SameTables o (some clan.id) (some officer) told in
          ap (λ f. f u) (later ∙ kept) ∙ v.alone u;
    }

transfer_to-IsConsistent :
    (o : ℕ) (owner : User) (clan : Clan) (target : Option ℕ) (s : State)
    → IsConsistent s
    → contains o s.user_ids ≡ true
    → (s.user o).clan_priv ≡ owner_priv
    → s.clan (s.user o).clan_id ≡ some clan
    → IsConsistent (transfer_to o owner clan target s).1
transfer_to-IsConsistent o owner clan none s v o_there o_priv o_clan = v
transfer_to-IsConsistent o owner clan (some t) s v o_there o_priv o_clan =
    let viewer : Identity = record { id = o; priv = owner.priv } in
    let listed = contains t s.user_ids in
    let in_clan = (s.user t).clan_id == clan.id in
    let visible = can_view_player (some viewer) t (s.user t).priv in
    elim (Bool-cases (not listed || not in_clan || not visible)) [
      | inl missing ↦ rw missing v
      | inr found ↦
          let (t_there, t_clan) = past_guards listed in_clan visible found in
          elim (Bool-cases (t == o)) [
            | inl self ↦ rw (found, self) v
            | inr apart ↦
                rw (found, apart)
                  (hand_over-IsConsistent o t clan s v o_there o_priv o_clan t_there
                    ((==_iff (s.user t).clan_id clan.id).0 t_clan) apart)
          ]
    ]

transfer_row-IsConsistent :
    (o : ℕ) (owner : Option User) (target : Option ℕ) (s : State)
    → IsConsistent s
    → fetch_user o s ≡ owner
    → IsConsistent (transfer_row o owner target s).1
transfer_row-IsConsistent o none target s v e = v
transfer_row-IsConsistent o (some owner) target s v e =
    let (there, row) = fetch_user-form o s owner e in
    elim (Bool-cases (owner.clan_id == 0 || not (owner.clan_priv == owner_priv))) [
      | inl other ↦ rw other v
      | inr owns ↦ elim (Option-cases (s.clan owner.clan_id)) [
        | inl missing ↦ rw (owns, missing) v
        | inr (clan, found) ↦
            let rank : owner.clan_priv ≡ owner_priv = ground (arith, owns) in
            rw (owns, found)
              (transfer_to-IsConsistent o owner clan target s v there (rw row rank)
                (ap (λ (u : User). s.clan u.clan_id) row ∙ found))
      ]
    ]

-- The calls that change the clans.
pub data Call : Type 0 where
  create : (player_id : ℕ) (tag name : Text) → Call
  disband : (clan_id : ℕ) → Call
  leave : (player_id : ℕ) → Call
  transfer : (owner_id : ℕ) (target_name : Text) → Call

module _ (matches : Text → Text → Bool) (upper : Text → Text) (named : Text → Option ℕ) where
  transfer-IsConsistent :
      (o : ℕ) (name : Text) (s : State)
      → IsConsistent s
      → IsConsistent (transfer_clan_ownership named o name s).1
  unfolding transfer_clan_ownership
  transfer-IsConsistent o name s v =
      transfer_row-IsConsistent o (fetch_user o s) (named name) s v refl

  abbrev pub call : Call → State → State
  call (create player_id tag name) s = (create_clan matches upper player_id tag name s).1
  call (disband clan_id) s = (disband_clan clan_id s).1
  call (leave player_id) s = (leave_clan player_id s).1
  call (transfer owner_id target_name) s = (transfer_clan_ownership named owner_id target_name s).1

  abbrev pub run : List Call → State → State
  run [] s = s
  run (c ∷ calls) s = run calls (call c s)

  call-IsConsistent : (c : Call) (s : State) → IsConsistent s → IsConsistent (call c s)
  call-IsConsistent (create p tag name) s v = create_clan-IsConsistent matches upper p tag name s v
  call-IsConsistent (disband k) s v = disband_clan-IsConsistent k s v
  call-IsConsistent (leave p) s v = leave_clan-IsConsistent p s v
  call-IsConsistent (transfer o name) s v = transfer-IsConsistent o name s v

  -- From consistent tables, and while no user has two sessions online, as a tourney client may: whatever
  -- clans are created, left, handed over and disbanded, in whatever order, every clan is owned by a
  -- user who is in it with the owner's privilege, every user with that privilege owns its clan, and
  -- each online session caches the clan and the privilege of its user's row.
  pub run-IsConsistent :
      (calls : List Call) (s : State) → IsConsistent s → IsConsistent (run calls s)
  run-IsConsistent [] s v = v
  run-IsConsistent (c ∷ calls) s v = run-IsConsistent calls (call c s) (call-IsConsistent c s v)
