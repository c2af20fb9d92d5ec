-- ===== src/Relationships/Service.antt =====
-- RelationshipsService of app/services/relationships.py: what the web site does to the friends of a
-- user, who may be online.
use bancho_prism_1_0_0_prod.Base.{
  ℕ, Bool, true, false, not, Option, none, some, ◌==◌, if◌then◌else◌,
}
use bancho_prism_1_0_0_prod.Replay.Build.{Identity, can_view_player}
use bancho_prism_1_0_0_prod.Relationships.{
  RelationshipType, friend, block, Session, State, is_friend, set_row, put_session, with_friend,
}

pub data AddFriendResult : Type 0 where
  added already_friends target_not_found cannot_friend_self : AddFriendResult

abbrev pub cache_friend : ℕ → (target : ℕ) → Bool → Option Session → State → State
cache_friend p target there none s = s
cache_friend p target there (some self) s = put_session p (with_friend target there self) s

abbrev pub create_friend : (p target : ℕ) → State → AddFriendResult × State
create_friend p target s =
    let created = set_row p target (some friend) s in
    (added, cache_friend p target true (created.session p) created)

-- What is there before: a block is deleted, and the friendship created in its place.
abbrev pub befriend : (p target : ℕ) → Option RelationshipType → State → AddFriendResult × State
befriend p target (some friend) s = (already_friends, s)
befriend p target (some block) s = create_friend p target (set_row p target none s)
befriend p target none s = create_friend p target s

abbrev pub befriend_user : Identity → (target : ℕ) → Option ℕ → State → AddFriendResult × State
befriend_user viewer target none s = (target_not_found, s)
befriend_user viewer target (some priv) s =
    if not (can_view_player (some viewer) target priv)
    then (target_not_found, s)
    else befriend viewer.id target (s.row viewer.id target) s

unfoldable pub add_friend_service : Identity → (target_id : ℕ) → State → AddFriendResult × State
add_friend_service viewer target_id s =
    if target_id == viewer.id
    then (cannot_friend_self, s)
    else befriend_user viewer target_id (s.priv target_id) s

unfoldable pub remove_friend_service : (player_id target_id : ℕ) → State → State
remove_friend_service player_id target_id s =
    let gone = set_row player_id target_id none s in
    if not (is_friend (s.row player_id target_id))
    then s
    else cache_friend player_id target_id false (gone.session player_id) gone
