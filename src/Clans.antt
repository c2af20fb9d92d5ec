-- ===== src/Clans.antt =====
-- ClansService of app/services/clans.py over the tables of users and clans and the sessions that
-- are online. `user` is read at the ids of `user_ids`; `matches` is the database's equality of texts,
-- `named` the id of the user whose safe name a name gives, `upper` stands for `str.upper`. A clan
-- gets the next id of its table.
pub mod Consistent
pub mod Members
pub mod Kept
pub mod Leave
pub mod Transfer
use bancho_prism_1_0_0_prod.Base.{
  ℕ, zero, suc, ◌+◌, List, [], ◌∷◌, Bool, true, false, not, ◌&&◌, ◌||◌, Option, none, some, leb,
  ◌==◌, if◌then◌else◌, length, Result, ok, err, assertion_error,
}
use bancho_prism_1_0_0_prod.Utf8.{Text}
use bancho_prism_1_0_0_prod.Match.{is_none}
use bancho_prism_1_0_0_prod.Match.Complete.{contains}
use bancho_prism_1_0_0_prod.Spectators.{update, is_empty}
use bancho_prism_1_0_0_prod.Players.{those}
use bancho_prism_1_0_0_prod.Replay.Build.{Identity, can_view_player}

pub record User : Type 0 where
  pub priv : ℕ
  pub clan_id : ℕ
  pub clan_priv : ℕ

pub record Clan : Type 0 where
  pub id : ℕ
  pub name : Text
  pub tag : Text
  pub owner : ℕ

-- What an online session caches of its user.
pub record Session : Type 0 where
  pub clan_id : Option ℕ
  pub clan_priv : Option ℕ

-- `online` is what the list of players finds by an id, `hidden` the other sessions of the user, which
-- a tourney client has and which no call of the service reaches.
pub record State : Type 0 where
  pub user_ids : List ℕ
  pub user : ℕ → User
  pub clan : ℕ → Option Clan
  pub next_id : ℕ
  pub online : ℕ → Option Session
  pub hidden : ℕ → List Session

-- ClanPrivileges
abbrev pub officer : ℕ
officer = 2

abbrev pub owner_priv : ℕ
owner_priv = 3

pub data CreateClanResult : Type 0 where
  created : Clan → CreateClanResult
  already_in_clan : Clan → CreateClanResult
  invalid_tag invalid_name tag_taken name_taken : CreateClanResult

pub data LeaveClanResult : Type 0 where
  left : Clan → (disbanded : Bool) → LeaveClanResult
  not_in_clan owner_must_transfer : LeaveClanResult

pub data TransferClanResult : Type 0 where
  transferred : Clan → (target : ℕ) → TransferClanResult
  not_clan_owner target_not_found target_already_owner : TransferClanResult

-- users.fetch_one(id=…)
abbrev pub fetch_user : ℕ → State → Option User
fetch_user id s = if contains id s.user_ids then some (s.user id) else none

-- users.partial_update of both columns
abbrev pub set_clan : (player_id clan_id clan_priv : ℕ) → State → State
set_clan player_id clan_id clan_priv s = record s {
  user =
      update player_id (record (s.user player_id) { clan_id = clan_id; clan_priv = clan_priv })
        s.user;
}

abbrev pub set_priv : (player_id clan_priv : ℕ) → State → State
set_priv player_id clan_priv s = record s {
  user = update player_id (record (s.user player_id) { clan_priv = clan_priv }) s.user;
}

abbrev pub put_clan : ℕ → Option Clan → State → State
put_clan id clan s = record s { clan = update id clan s.clan }

-- _sync_online_clan_state
abbrev pub sync : (player_id : ℕ) (clan_id clan_priv : Option ℕ) → State → State
sync player_id clan_id clan_priv s = if is_none (s.online player_id) then s else record s {
  online = update player_id (some (record { clan_id = clan_id; clan_priv = clan_priv })) s.online;
}

-- The first row of the clans below an id that a test finds.
abbrev pub any_clan : (Clan → Bool) → (below : ℕ) → State → Bool
any_clan test zero s = false
any_clan test (suc id) s =
    let rest = any_clan test id s in elim (s.clan id) [ none ↦ rest | some c ↦ test c || rest ]

-- users.fetch_many(clan_id=…, include_hidden=True)
abbrev pub fetch_members : ℕ → State → List ℕ
fetch_members clan_id s = those (λ u. (s.user u).clan_id == clan_id) s.user_ids

abbrev pub clear_users : List ℕ → State → State
clear_users [] s = s
clear_users (u ∷ members) s = clear_users members (set_clan u 0 0 s)

abbrev pub clear_sessions : List ℕ → State → State
clear_sessions [] s = s
clear_sessions (u ∷ members) s = clear_sessions members (sync u none none s)

abbrev pub disband_row : Option Clan → State → Option Clan × State
disband_row none s = (none, s)
disband_row (some clan) s =
    let members = fetch_members clan.id s in
    (some clan, clear_sessions members (clear_users members (put_clan clan.id none s)))

unfoldable pub disband_clan : ℕ → State → Option Clan × State
disband_clan clan_id s = disband_row (s.clan clan_id) s

-- The player's row, its clan, the others of the clan.
abbrev pub leave_clan_of : ℕ → Clan → State → Result LeaveClanResult × State
leave_clan_of player_id clan s =
    let others = those (λ u. not (u == player_id)) (fetch_members clan.id s) in
    let left_row = set_clan player_id 0 0 s in
    let cleared = if is_empty others then put_clan clan.id none left_row else left_row in
    (ok (left clan (is_empty others)), sync player_id none none cleared)

abbrev pub leave_found : ℕ → Option Clan → State → Result LeaveClanResult × State
leave_found player_id none s = (ok not_in_clan, s)
leave_found player_id (some clan) s = leave_clan_of player_id clan s

abbrev pub leave_row : ℕ → Option User → State → Result LeaveClanResult × State
leave_row player_id none s = (err assertion_error, s)
leave_row player_id (some player) s =
    if player.clan_id == 0
    then (ok not_in_clan, s)
    else if player.clan_priv == owner_priv
    then (ok owner_must_transfer, s)
    else leave_found player_id (s.clan player.clan_id) s

unfoldable pub leave_clan : ℕ → State → Result LeaveClanResult × State
leave_clan player_id s = leave_row player_id (fetch_user player_id s) s

abbrev pub add_clan : (player_id : ℕ) (tag name : Text) → State → Result CreateClanResult × State
add_clan player_id tag name s =
    let clan : Clan = record { id = s.next_id; name = name; tag = tag; owner = player_id } in
    let inserted = record (put_clan s.next_id (some clan) s) { next_id = s.next_id + 1 } in
    (
      ok (created clan),
      sync player_id (some clan.id) (some owner_priv)
          (set_clan player_id clan.id owner_priv inserted),
    )

module _ (matches : Text → Text → Bool) (upper : Text → Text) where
  abbrev pub create_unless_taken :
      (player_id : ℕ) (tag name : Text) → State → Result CreateClanResult × State
  create_unless_taken player_id tag name s =
      if any_clan (λ c. matches c.name name) s.next_id s
      then (ok name_taken, s)
      else if any_clan (λ c. matches c.tag tag) s.next_id s
      then (ok tag_taken, s)
      else add_clan player_id tag name s

  -- The clan that the player is in already, if it is there.
  abbrev pub create_outside :
      (current : Option Clan) (player_id : ℕ) (tag name : Text)
      → State
      → Result CreateClanResult × State
  create_outside (some current) player_id tag name s = (ok (already_in_clan current), s)
  create_outside none player_id tag name s = create_unless_taken player_id tag name s

  abbrev pub create_row :
      Option User → (player_id : ℕ) (tag name : Text) → State → Result CreateClanResult × State
  create_row none player_id tag name s = (err assertion_error, s)
  create_row (some player) player_id tag name s =
      create_outside (if player.clan_id == 0 then none else s.clan player.clan_id) player_id tag
        name s

  unfoldable pub create_clan :
      (player_id : ℕ) (tag name : Text) → State → Result CreateClanResult × State
  create_clan player_id given_tag name s =
      let tag = upper given_tag in
      if not (leb 1 (length tag) && leb (length tag) 6)
      then (ok invalid_tag, s)
      else if not (leb 2 (length name) && leb (length name) 16)
      then (ok invalid_name, s)
      else create_row (fetch_user player_id s) player_id tag name s

abbrev pub hand_over : (owner_id target : ℕ) → Clan → State → Result TransferClanResult × State
hand_over owner_id target clan s =
    let owned = put_clan clan.id (some (record clan { owner = target })) s in
    let ranked = set_priv owner_id officer (set_priv target owner_priv owned) in
    let told = sync target (some clan.id) (some owner_priv) ranked in
    (ok (transferred clan target), sync owner_id (some clan.id) (some officer) told)

-- A target who is not in the clan, or is hidden from the owner, is not found.
abbrev pub transfer_to :
    (owner_id : ℕ) → User → Clan → (target : Option ℕ) → State → Result TransferClanResult × State
transfer_to owner_id owner clan none s = (ok target_not_found, s)
transfer_to owner_id owner clan (some target) s =
    let viewer : Identity = record { id = owner_id; priv = owner.priv } in
    if not (contains target s.user_ids)
      || not ((s.user target).clan_id == clan.id)
      || not (can_view_player (some viewer) target (s.user target).priv)
    then (ok target_not_found, s)
    else if target == owner_id
    then (ok target_already_owner, s)
    else hand_over owner_id target clan s

abbrev pub transfer_found :
    (owner_id : ℕ)
    → User
    → Option Clan
    → (target : Option ℕ) → State
    → Result TransferClanResult × State
transfer_found owner_id owner none target s = (ok not_clan_owner, s)
transfer_found owner_id owner (some clan) target s = transfer_to owner_id owner clan target s

abbrev pub transfer_row :
    (owner_id : ℕ) → Option User → (target : Option ℕ) → State → Result TransferClanResult × State
transfer_row owner_id none target s = (err assertion_error, s)
transfer_row owner_id (some owner) target s =
    if owner.clan_id == 0 || not (owner.clan_priv == owner_priv)
    then (ok not_clan_owner, s)
    else transfer_found owner_id owner (s.clan owner.clan_id) target s

module _ (named : Text → Option ℕ) where
  unfoldable pub transfer_clan_ownership :
      (owner_id : ℕ) (target_name : Text) → State → Result TransferClanResult × State
  unfolding can_view_player
  transfer_clan_ownership owner_id target_name s =
      transfer_row owner_id (fetch_user owner_id s) (named target_name) s
