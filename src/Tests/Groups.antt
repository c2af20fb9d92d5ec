-- ===== src/Tests/Groups.antt =====
-- Runs of the clans.
use bancho_prism_1_0_0_prod.Base.{
  ℕ, zero, suc, ◌≡◌, ◌≤◌, refl, sym, arith, [], ◌∷◌, Bool, true, false, Option, none, some, ok,
}
use bancho_prism_1_0_0_prod.Utf8.{Text}
use bancho_prism_1_0_0_prod.Clans.{User, Clan, Session, State, leave_clan, left}
use bancho_prism_1_0_0_prod.Match.Complete.{contains}
use bancho_prism_1_0_0_prod.Clans.Members.{session_of}
use bancho_prism_1_0_0_prod.Clans.Kept.{IsConsistent}
use bancho_prism_1_0_0_prod.Clans.Leave.{leave_clan_disbands_nothing}
use bancho_prism_1_0_0_prod.Clans.Transfer.{create, disband, leave, transfer, run, run-IsConsistent}

-- Users 1 and 2 are in a clan that 1 owns; 2 and 3 are online.
abbrev own_clan : Clan
own_clan = record { id = 1; name = 65 ∷ 66 ∷ []; tag = 65 ∷ []; owner = 1 }

abbrev member_session : Session
member_session = record { clan_id = some 1; clan_priv = some 1 }

abbrev outsider_session : Session
outsider_session = record { clan_id = none; clan_priv = none }

abbrev rows : ℕ → User
rows (suc zero) = record { priv = 3; clan_id = 1; clan_priv = 3 }
rows (suc (suc zero)) = record { priv = 3; clan_id = 1; clan_priv = 1 }
rows u = record { priv = 3; clan_id = 0; clan_priv = 0 }

abbrev clans : ℕ → Option Clan
clans (suc zero) = some own_clan
clans k = none

abbrev sessions : ℕ → Option Session
sessions (suc (suc zero)) = some member_session
sessions (suc (suc (suc zero))) = some outsider_session
sessions u = none

abbrev two_members : State
two_members = record {
  user_ids = 1 ∷ 2 ∷ 3 ∷ [];
  user = rows;
  clan = clans;
  next_id = 2;
  online = sessions;
  hidden = λ u. [];
}

abbrev matches : Text → Text → Bool
matches a b = false

abbrev upper : Text → Text
upper s = s

abbrev named : Text → Option ℕ
named name = some 2

clans_owned :
    (u : ℕ)
    → (rows u).clan_priv ≡ 3
    → (c : Clan) × (clans (rows u).clan_id ≡ some c) × (c.owner ≡ u)
clans_owned zero h = absurd (omega arith)
clans_owned (suc zero) h = (own_clan, refl, refl)
clans_owned (suc (suc zero)) h = absurd (omega arith)
clans_owned (suc (suc (suc u))) h = absurd (omega arith)

clans_owners :
    (k : ℕ) (c : Clan)
    → clans k ≡ some c
    → (c.id ≡ k)
      × (contains c.owner (1 ∷ 2 ∷ 3 ∷ []) ≡ true)
      × ((rows c.owner).clan_id ≡ k)
      × ((rows c.owner).clan_priv ≡ 3)
clans_owners zero c h = absurd cc
clans_owners (suc zero) c h = let e : own_clan ≡ c = cc in rw (← e) (refl, refl, refl, refl)
clans_owners (suc (suc k)) c h = absurd cc

clans_fresh : (k : ℕ) → 2 ≤ k → clans k ≡ none
clans_fresh zero h = refl
clans_fresh (suc zero) h = absurd (omega arith)
clans_fresh (suc (suc k)) h = refl

sessions_cached : (u : ℕ) (x : Session) → sessions u ≡ some x → x ≡ session_of (rows u)
sessions_cached zero x h = absurd cc
sessions_cached (suc zero) x h = absurd cc
sessions_cached (suc (suc zero)) x h = let e : member_session ≡ x = cc in sym e
sessions_cached (suc (suc (suc zero))) x h = let e : outsider_session ≡ x = cc in sym e
sessions_cached (suc (suc (suc (suc u)))) x h = absurd cc

two_members-IsConsistent : IsConsistent two_members
two_members-IsConsistent = record {
  sound = record {
    owners = clans_owners;
    owned = λ u there h. clans_owned u h;
    fresh = clans_fresh;
    no_zero = refl;
    started = omega arith;
  };
  cached = λ u x skip h. sessions_cached u x h;
  alone = λ u. refl;
}

run-IsConsistent_example : IsConsistent (
    run matches upper named
      (create 3 (67 ∷ []) (67 ∷ 67 ∷ []) ∷ transfer 1 [] ∷ leave 1 ∷ disband 2 ∷ [])
      two_members)
run-IsConsistent_example =
    run-IsConsistent matches upper named
      (create 3 (67 ∷ []) (67 ∷ 67 ∷ []) ∷ transfer 1 [] ∷ leave 1 ∷ disband 2 ∷ []) two_members
      two_members-IsConsistent

member_leaves : (leave_clan 2 two_members).0 ≡ ok (left own_clan false)
unfolding leave_clan
member_leaves = refl

leave_clan_disbands_nothing_example :
    (false ≡ false) × ((leave_clan 2 two_members).1.clan ≡ two_members.clan)
leave_clan_disbands_nothing_example =
    leave_clan_disbands_nothing 2 two_members own_clan false two_members-IsConsistent.sound
      member_leaves
