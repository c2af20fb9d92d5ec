-- ===== src/Relationships.antt =====
-- Friends and blocks: the table of relationships, what an online session caches of it, and what changes
-- the two. The methods of app/objects/player.py with the handlers FRIEND_ADD and FRIEND_REMOVE of
-- app/api/domains/cho.py and the commands `block` and `unblock` of app/commands.py change them from
-- the game, app/services/relationships.py from the web site. Each runs to its end before the next. A
-- set of ids is its test; a command is given the user that its text names, if there is one.
pub mod Service
pub mod Cached
pub mod Handlers
pub mod Steps
use bancho_prism_1_0_0_prod.Base.{
  ℕ, Bool, true, false, not, ◌||◌, Option, none, some, ◌==◌, if◌then◌else◌,
}
use bancho_prism_1_0_0_prod.Match.{is_none}
use bancho_prism_1_0_0_prod.Spectators.{update}

pub data RelationshipType : Type 0 where
  friend block : RelationshipType

-- The sets of a session.
pub record Session : Type 0 where
  pub friends : ℕ → Bool
  pub blocks : ℕ → Bool

-- `row user1 user2`, the one session that a user has online, and the privileges of the users that
-- exist. A second session of a user, which only a tourney client makes, is not modelled.
pub record State : Type 0 where
  pub row : ℕ → ℕ → Option RelationshipType
  pub session : ℕ → Option Session
  pub priv : ℕ → Option ℕ

abbrev pub bot_id : ℕ
bot_id = 1

abbrev pub is_friend : Option RelationshipType → Bool
is_friend none = false
is_friend (some friend) = true
is_friend (some block) = false

abbrev pub is_block : Option RelationshipType → Bool
is_block none = false
is_block (some friend) = false
is_block (some block) = true

-- REPLACE INTO or DELETE FROM relationships
abbrev pub set_row : (user1 user2 : ℕ) → Option RelationshipType → State → State
set_row user1 user2 type s = record s { row = update user1 (update user2 type (s.row user1)) s.row }

abbrev pub put_session : ℕ → Session → State → State
put_session p self s = record s { session = update p (some self) s.session }

abbrev pub with_friend : ℕ → Bool → Session → Session
with_friend u there self = record self { friends = update u there self.friends }

abbrev pub with_block : ℕ → Bool → Session → Session
with_block u there self = record self { blocks = update u there self.blocks }

-- The methods of a player, on its session.
abbrev pub add_friend : (p : ℕ) (self : Session) (target : ℕ) → State → State
add_friend p self target s =
    if self.friends target
    then s
    else set_row p target (some friend) (put_session p (with_friend target true self) s)

abbrev pub remove_friend : (p : ℕ) (self : Session) (target : ℕ) → State → State
remove_friend p self target s =
    if not (self.friends target)
    then s
    else set_row p target none (put_session p (with_friend target false self) s)

abbrev pub add_block : (p : ℕ) (self : Session) (target : ℕ) → State → State
add_block p self target s =
    if self.blocks target
    then s
    else set_row p target (some block) (put_session p (with_block target true self) s)

abbrev pub remove_block : (p : ℕ) (self : Session) (target : ℕ) → State → State
remove_block p self target s =
    if not (self.blocks target)
    then s
    else set_row p target none (put_session p (with_block target false self) s)

-- relationships_from_sql, of a session that is made at a login of a user who has none
unfoldable pub login : ℕ → State → State
login p s =
    put_session p
      (record {
        friends = λ u. if u == bot_id then true else is_friend (s.row p u);
        blocks = λ u. is_block (s.row p u);
      })
      s

-- A session that has left the list of players.
abbrev pub logout : ℕ → State → State
logout p s = record s { session = update p none s.session }

-- The handlers of a player, who is online.
abbrev pub add_from : Option Session → (p user_id : ℕ) → State → State
add_from none p user_id s = s
add_from (some self) p user_id s =
    let unblocked = with_block user_id false self in
    if is_none (s.session user_id) || user_id == bot_id
    then s
    else add_friend p unblocked user_id (put_session p unblocked s)

unfoldable pub friend_add : (p user_id : ℕ) → State → State
friend_add p user_id s = add_from (s.session p) p user_id s

abbrev pub remove_from : Option Session → (p user_id : ℕ) → State → State
remove_from none p user_id s = s
remove_from (some self) p user_id s =
    if is_none (s.session user_id) || user_id == bot_id then s else remove_friend p self user_id s

unfoldable pub friend_remove : (p user_id : ℕ) → State → State
friend_remove p user_id s = remove_from (s.session p) p user_id s

-- What a command answers.
pub data Reply : Type 0 where
  user_not_found what already done : Reply

abbrev pub block_from : Option Session → (p : ℕ) (target : Option ℕ) → State → Reply × State
block_from none p target s = (what, s)
block_from (some self) p none s = (user_not_found, s)
block_from (some self) p (some target) s =
    let unfriended = with_friend target false self in
    if target == bot_id || target == p
    then (what, s)
    else if self.blocks target
    then (already, s)
    else (done, add_block p unfriended target (put_session p unfriended s))

unfoldable pub block_command : (p : ℕ) (target : Option ℕ) → State → Reply × State
block_command p target s = block_from (s.session p) p target s

abbrev pub unblock_from : Option Session → (p : ℕ) (target : Option ℕ) → State → Reply × State
unblock_from none p target s = (what, s)
unblock_from (some self) p none s = (user_not_found, s)
unblock_from (some self) p (some target) s =
    if target == bot_id || target == p
    then (what, s)
    else if not (self.blocks target)
    then (already, s)
    else (done, remove_block p self target s)

unfoldable pub unblock_command : (p : ℕ) (target : Option ℕ) → State → Reply × State
unblock_command p target s = unblock_from (s.session p) p target s
